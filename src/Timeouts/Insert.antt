-- ===== src/Timeouts/Insert.antt =====
-- The list keeps each timeout's deadline as a difference to the one before it; inserting is a sorted
-- insertion among the deadlines.
use libdfu.Base.{
  ℕ, zero, suc, ◌+◌, ◌^◌, ◌<◌, ◌≡◌, ◌≢◌, refl, sym, ap, ◌∙◌, length, length-append, map, replicate,
  get_or-append, set-append, ◌++◌, append_assoc, Bool-cases, inl, inr, Bool, true, false, Option,
  none, some, List, [], ◌∷◌, ltb, arith,
}
use libdfu.Timeouts.{
  max_timeouts, Timers, update, time_after, insert_timeout, insert_from, insert_slot, place,
  shift_right,
}
use libdfu.Base.Word.{sub32, add32}
use mathlib.Core.Path.{subst₂}
use libdfu.Timeouts.Deadlines.{
  deadlines, insert_sorted, InRange, Absent, Distinct, array, deadlines-Same, InRange-Same,
  Same-update, array_last, length-array, InRange-base,
}

-- Room for one more: three slots and an empty one.
place-room :
    (pre init : List (Option ℕ)) (to p : ℕ) (values : ℕ → ℕ)
    → length pre + length init ≡ 2
    → place
        (length pre)
        to
        (record { slots = pre ++ (some p ∷ (init ++ (none ∷ []))); values = values })
      ≡ (
        true,
        record {
          slots = pre ++ (some to ∷ some p ∷ init);
          values = update values p (sub32 (values p) (values to));
        },
      )
unfolding place shift_right
place-room [] (b ∷ c ∷ []) to p values e = refl
place-room (x ∷ []) (c ∷ []) to p values e = refl
place-room (x ∷ y ∷ []) [] to p values e = refl
place-room [] [] to p values e = absurd (omega arith)
place-room [] (b ∷ []) to p values e = absurd (omega arith)
place-room [] (b ∷ c ∷ d ∷ l) to p values e = absurd (omega arith)
place-room (x ∷ []) [] to p values e = absurd (omega arith)
place-room (x ∷ []) (b ∷ c ∷ l) to p values e = absurd (omega arith)
place-room (x ∷ y ∷ []) (b ∷ l) to p values e = absurd (omega arith)
place-room (x ∷ y ∷ z ∷ l) init to p values e = absurd (omega arith)

-- What the loop has done when it stops, from behind `pre` on.
record Inserted (pre : List (Option ℕ)) (body : List ℕ) (k base at to : ℕ) (values : ℕ → ℕ)
    (out : Bool × Timers) : Type 0 where
  done : out.0 ≡ true
  ids : List ℕ
  slots : out.1.slots ≡ pre ++ array ids k
  sorted : deadlines base out.1.values ids ≡ insert_sorted to at (deadlines base values body)
  others : (q : ℕ) → to ≢ q → Absent q body → out.1.values q ≡ values q

module _ (p : ℕ) (body : List ℕ) (k : ℕ) (pre : List (Option ℕ)) (base at to : ℕ) (values : ℕ → ℕ)
    (e : length pre + length (p ∷ body) + k ≡ 3) (absent : Absent to (p ∷ body))
    (distinct : Distinct (p ∷ body)) (range : InRange base values (p ∷ body))
    (due : base + values to ≡ at) (small : at < 2 ^ 31) where
  abbrev before : Timers
  before = record { slots = pre ++ array (p ∷ body) (suc k); values = values }

  p_small : base + values p < 2 ^ 31
  p_small = InRange-base (base + values p) values body range.1

  abbrev shortened : ℕ → ℕ
  shortened = update values p (sub32 (values p) (values to))

  placed :
      place (length pre) to before
      ≡ (true, record { slots = pre ++ array (to ∷ p ∷ body) k; values = shortened })
  placed =
      let last : array body (suc k) ≡ array body k ++ (none ∷ []) =
        ap (λ l. map some body ++ l) (array_last k)
        ∙ sym (append_assoc (map some body) (replicate k none) (none ∷ [])) in
      ap (λ l. place (length pre) to (record { slots = pre ++ (some p ∷ l); values = values })) last
      ∙ place-room pre (array body k) to p values (omega (arith, length-array body k))

  -- The new timeout goes before `p`, which is not earlier.
  insert-Inserted :
      (continue : Timers → Bool × Timers)
      → time_after (values to) (values p) ≡ false
      → Inserted pre
          (p ∷ body)
          k
          base
          at
          to
          values
          (insert_slot continue (length pre) to before (some p))
  unfolding insert_slot insert_sorted
  insert-Inserted continue test =
      let not_later : ltb (base + values p) at ≡ false = ground arith in
      let to_due : base + shortened to ≡ at = ground (arith, absent.0) in
      let p_due : base + shortened to + shortened p ≡ base + values p =
        ground (arith, absent.0, p_small) in
      rw (test, placed)
        (record {
          done = refl;
          ids = to ∷ p ∷ body;
          slots = refl;
          sorted = rw not_later (
              ap
                (λ t.
                  (to, t)
                  ∷ (p, base + shortened to + shortened p)
                  ∷ deadlines (base + shortened to + shortened p) shortened body)
                to_due
              ∙ ap (λ t. (to, at) ∷ (p, t) ∷ deadlines t shortened body) p_due
              ∙ ap (λ l. (to, at) ∷ (p, base + values p) ∷ l)
                  (deadlines-Same (base + values p) shortened values body
                    (Same-update values p (sub32 (values p) (values to)) body distinct.0)));
          others = λ q ne ab. ground (arith, ab.0);
        })

  abbrev reduced : ℕ → ℕ
  reduced = update values to (sub32 (values to) (values p))

  abbrev next : Timers
  next = record { slots = pre ++ array (p ∷ body) (suc k); values = reduced }

  -- `p` is earlier: the rounds behind it go on with the difference.
  continue-Inserted :
      (continue : Timers → Bool × Timers)
      → time_after (values to) (values p) ≡ true
      → Inserted (pre ++ (some p ∷ [])) body k (base + values p) at to reduced (continue next)
      → Inserted pre
          (p ∷ body)
          k
          base
          at
          to
          values
          (insert_slot continue (length pre) to before (some p))
  unfolding insert_slot insert_sorted
  continue-Inserted continue test ih =
      let earlier : ltb (base + values p) at ≡ true = ground (arith, p_small) in
      let p_kept = ih.others p absent.0 distinct.0 in
      rw test (record {
        done = ih.done;
        ids = p ∷ ih.ids;
        slots = ih.slots ∙ append_assoc pre (some p ∷ []) (array ih.ids k);
        sorted = rw earlier (
            ap (λ t. (p, base + t) ∷ deadlines (base + t) (continue next).1.values ih.ids)
              (p_kept ∙ ground (arith, absent.0))
            ∙ ap (λ l. (p, base + values p) ∷ l)
                (ih.sorted
                  ∙ ap (insert_sorted to at) (
                      deadlines-Same (base + values p) reduced values body
                        (Same-update values to (sub32 (values to) (values p)) body absent.1))));
        others = λ q ne ab. ih.others q ne ab.1 ∙ ground (arith, ne);
      })

loop-Inserted :
    (body : List ℕ) (k fuel : ℕ) (pre : List (Option ℕ)) (base at to : ℕ) (values : ℕ → ℕ)
    → fuel ≡ length body + k
    → length pre + length body + k ≡ 3
    → Absent to body
    → Distinct body
    → InRange base values body
    → base + values to ≡ at
    → at < 2 ^ 31
    → Inserted pre body k base at to values (
        insert_from
          (suc fuel)
          (length pre)
          to
          (record { slots = pre ++ array body (suc k); values = values }))
unfolding insert_from
loop-Inserted [] k fuel pre base at to values f e ab di ra ba sm =
    rw (get_or-append pre none (replicate k none) none) (
      unfold insert_slot insert_sorted in
      record {
        done = refl;
        ids = to ∷ [];
        slots = set-append pre none (replicate k none) (some to);
        sorted = ap (λ t. (to, t) ∷ []) ba;
        others = λ q ne a. refl;
      })
loop-Inserted (p ∷ body) k zero pre base at to values f e ab di ra ba sm = absurd (omega arith)
loop-Inserted (p ∷ body) k (suc fuel) pre base at to values f e ab di ra ba sm =
    let more = insert_from (suc fuel) (length pre + 1) to in
    rw (get_or-append pre (some p) (array body (suc k)) none)
      (elim (Bool-cases (time_after (values to) (values p))) [
        | inl after ↦ continue-Inserted p body k pre base at to values e ab di ra ba sm more after (
            let values' = update values to (sub32 (values to) (values p)) in
            let one_more : length (pre ++ (some p ∷ [])) ≡ length pre + 1 =
              length-append pre (some p ∷ []) in
            let p_in = InRange-base (base + values p) values body ra.1 in
            let ih =
              loop-Inserted body k fuel (pre ++ (some p ∷ [])) (base + values p) at to values'
                (omega arith) (omega (arith, one_more)) ab.1 di.1
                (InRange-Same (base + values p) values values' body
                  (Same-update values to (sub32 (values to) (values p)) body ab.1) ra.1)
                (ground (arith, p_in)) sm in
            subst₂
              (λ n l.
                Inserted (pre ++ (some p ∷ [])) body k (base + values p) at to values'
                  (insert_from (suc fuel) n to (record { slots = l; values = values' })))
              one_more (append_assoc pre (some p ∷ []) (array body (suc k))) ih)
        | inr before ↦ insert-Inserted p body k pre base at to values e ab di ra ba sm more before
      ])

-- A list with room for one more: the array holds `ids` and at least one null pointer.
pub record HasRoom (t : Timers) (ids : List ℕ) : Type 0 where
  pub free : ℕ
  pub slots : t.slots ≡ array ids (suc free)
  pub size : length ids + suc free ≡ max_timeouts

-- `_insert_timeout` at time `now`, for a timeout not in the list, where the list has room, holds no
-- timeout twice, and no deadline leaves the positive range of an `int`: it returns 0, the array
-- stays packed, and the deadlines are those before, in the same order, with the new one, `now` plus
-- its delay, put before the first that is not earlier.
pub insert_timeout-sorted :
    (t : Timers) (ids : List ℕ) (to now : ℕ)
    → (room : HasRoom t ids) → Absent to ids
    → Distinct ids
    → InRange 0 t.values ids
    → t.values to + now < 2 ^ 31
    → ((insert_timeout t to now).0 ≡ true)
      × ((ids' : List ℕ) × ((insert_timeout t to now).1.slots ≡ array ids' room.free)
          × (deadlines 0 (insert_timeout t to now).1.values ids'
              ≡ insert_sorted to (t.values to + now) (deadlines 0 t.values ids)))
unfolding insert_timeout
insert_timeout-sorted t ids to now room ab di ra sm =
    let started = update t.values to (add32 (t.values to) now) in
    let same = Same-update t.values to (add32 (t.values to) now) ids ab in
    let run : Inserted [] ids room.free 0 (t.values to + now) to started
        (insert_from 4 0 to (record { slots = t.slots; values = started })) =
      rw room.slots (
        loop-Inserted ids room.free 3 [] 0 (t.values to + now) to started (omega (arith, room.size))
          (omega (arith, room.size)) ab di (InRange-Same 0 t.values started ids same ra)
          (ground arith) sm) in
    (
      run.done,
      (
        run.ids,
        run.slots,
        run.sorted
            ∙ ap (insert_sorted to (t.values to + now))
                (deadlines-Same 0 started t.values ids same),
      ),
    )

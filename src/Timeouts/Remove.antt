-- ===== src/Timeouts/Remove.antt =====
-- Removing a timeout leaves every other deadline as it was.
use libdfu.Base.{
  ℕ, zero, suc, ◌+◌, ◌-◌, ◌<◌, ◌≡◌, refl, sym, ap, ap₂, ◌∙◌, true, false, Option, none, some, List,
  [], ◌∷◌, ◌++◌, append_assoc, map, length, length-append, length-map, ◌==◌, ltb, if◌then◌else◌,
  get_or, set, get_or-append, arith, Bool-cases, inl, inr,
}
use libdfu.Base.Word.{add32}
use libdfu.Timeouts.{
  Timers, max_timeouts, update, lengthen, find, shift_left, remove_at, remove_timeout,
}
use libdfu.Timeouts.Deadlines.{
  deadlines, deadlines-Same, Same-update, InRange, InRange-base, Absent, Distinct, array,
  array_last, length-array,
}

-- The deadlines but those of `to`.
abbrev pub without : ℕ → List (ℕ × ℕ) → List (ℕ × ℕ)
without to [] = []
without to ((p, due) ∷ rest) = if p == to then without to rest else (p, due) ∷ without to rest

-- The field of the timeout behind `to` grows by that of `to`.
abbrev given_on : (ℕ → ℕ) → ℕ → List ℕ → ℕ → ℕ
given_on values to [] = values
given_on values to (q ∷ after) = update values q (add32 (values q) (values to))

Absent-parts :
    (p : ℕ) (before after : List ℕ) → Absent p (before ++ after) → Absent p before × Absent p after
Absent-parts p [] after h = (tt, h)
Absent-parts p (b ∷ before) after h = let (l, r) = Absent-parts p before after h.1 in ((h.0, l), r)

without-Absent :
    (to base : ℕ) (values : ℕ → ℕ) (ids : List ℕ)
    → Absent to ids
    → without to (deadlines base values ids) ≡ deadlines base values ids
without-Absent to base values [] h = refl
without-Absent to base values (p ∷ ids) h =
    let other : (p == to) ≡ false = ground (arith, h.0) in
    rw other
      (ap (λ l. (p, base + values p) ∷ l) (without-Absent to (base + values p) values ids h.1))

given_on-other :
    (values : ℕ → ℕ) (to p : ℕ) (after : List ℕ)
    → Absent p after
    → given_on values to after p ≡ values p
given_on-other values to p [] h = refl
given_on-other values to p (q ∷ after) h = ground (arith, h.0)

deadlines-without :
    (before after : List ℕ) (base to : ℕ) (values : ℕ → ℕ)
    → Distinct (before ++ (to ∷ after))
    → InRange base values (before ++ (to ∷ after))
    → deadlines base (given_on values to after) (before ++ after)
      ≡ without to (deadlines base values (before ++ (to ∷ after)))
deadlines-without [] [] base to values di ra = ground arith
deadlines-without [] (q ∷ after) base to values di ra =
    let self : (to == to) ≡ true = ground arith in
    let other : (q == to) ≡ false = ground (arith, di.0.0) in
    let v' = update values q (add32 (values q) (values to)) in
    let q_in = InRange-base (base + values to + values q) values after ra.1.1 in
    let due : base + v' q ≡ base + values to + values q = ground (arith, q_in) in
    rw (self, other)
      (ap (λ t. (q, t) ∷ deadlines t v' after) due
        ∙ ap (λ l. (q, base + values to + values q) ∷ l)
            (deadlines-Same (base + values to + values q) v' values after
                (Same-update values q (add32 (values q) (values to)) after di.1.0)
              ∙ sym (without-Absent to (base + values to + values q) values after di.0.1)))
deadlines-without (b ∷ before) after base to values di ra =
    let apart = (Absent-parts b before (to ∷ after) di.0).1 in
    let other : (b == to) ≡ false = ground (arith, apart.0) in
    let v' = given_on values to after in
    rw other (
      ap (λ t. (b, base + t) ∷ deadlines (base + t) v' (before ++ after))
        (given_on-other values to b after apart.1)
      ∙ ap (λ l. (b, base + values b) ∷ l)
          (deadlines-without before after (base + values b) to values di.1 ra.1))

-- The rounds of the search behind `pre`.
find_lem :
    (before after : List ℕ) (k n to : ℕ) (pre : List (Option ℕ))
    → Absent to before
    → length before < n
    → find n (length pre) to (pre ++ array (before ++ (to ∷ after)) k) ≡ length pre + length before
unfolding find
find_lem before after k zero to pre h lt = absurd (omega arith)
find_lem [] after k (suc n) to pre h lt =
    let self : (to == to) ≡ true = ground arith in
    rw (get_or-append pre (some to) (array after k) none, self) (omega arith)
find_lem (b ∷ before) after k (suc n) to pre h lt =
    let other : (b == to) ≡ false = ground (arith, h.0) in
    let slots = array (before ++ (to ∷ after)) k in
    let one_more : length (pre ++ (some b ∷ [])) ≡ length pre + 1 =
      length-append pre (some b ∷ []) in
    let ih = find_lem before after k n to (pre ++ (some b ∷ [])) h.1 (omega arith) in
    rw (get_or-append pre (some b) slots none, other)
      (ap₂ (λ i l. find n i to l) (sym one_more) (sym (append_assoc pre (some b ∷ []) slots))
        ∙ ih
        ∙ omega (arith, one_more))

shift_lem :
    (pre l : List (Option ℕ)) (x : Option ℕ)
    → length pre + length l ≡ 3
    → set (shift_left (3 - length pre) (length pre) (pre ++ (x ∷ l))) 3 none
      ≡ pre ++ (l ++ (none ∷ []))
unfolding shift_left
shift_lem [] (a ∷ b ∷ c ∷ []) x e = refl
shift_lem (p ∷ []) (a ∷ b ∷ []) x e = refl
shift_lem (p ∷ q ∷ []) (a ∷ []) x e = refl
shift_lem (p ∷ q ∷ r ∷ []) [] x e = refl
shift_lem [] [] x e = absurd (omega arith)
shift_lem [] (a ∷ []) x e = absurd (omega arith)
shift_lem [] (a ∷ b ∷ []) x e = absurd (omega arith)
shift_lem [] (a ∷ b ∷ c ∷ d ∷ l) x e = absurd (omega arith)
shift_lem (p ∷ []) [] x e = absurd (omega arith)
shift_lem (p ∷ []) (a ∷ []) x e = absurd (omega arith)
shift_lem (p ∷ []) (a ∷ b ∷ c ∷ l) x e = absurd (omega arith)
shift_lem (p ∷ q ∷ []) [] x e = absurd (omega arith)
shift_lem (p ∷ q ∷ []) (a ∷ b ∷ l) x e = absurd (omega arith)
shift_lem (p ∷ q ∷ r ∷ []) (a ∷ l) x e = absurd (omega arith)
shift_lem (p ∷ q ∷ r ∷ s ∷ pre) l x e = absurd (omega arith)

array-append :
    (before ids : List ℕ) (k : ℕ) → array (before ++ ids) k ≡ map some before ++ array ids k
array-append [] ids k = refl
array-append (b ∷ before) ids k = ap (λ l. some b ∷ l) (array-append before ids k)

array-concat : (ids : List ℕ) (k : ℕ) → array ids k ++ (none ∷ []) ≡ array ids (suc k)
array-concat [] k = sym (array_last k)
array-concat (p ∷ ids) k = ap (λ l. some p ∷ l) (array-concat ids k)

-- The packed array of `ids`.
pub record Holds (t : Timers) (ids : List ℕ) : Type 0 where
  pub free : ℕ
  pub slots : t.slots ≡ array ids free
  pub size : length ids + free ≡ max_timeouts

Absent-before :
    (before after : List ℕ) (to : ℕ) → Distinct (before ++ (to ∷ after)) → Absent to before
Absent-before [] after to di = tt
Absent-before (b ∷ before) after to di =
    let apart = (Absent-parts b before (to ∷ after) di.0).1.0 in
    (λ e. apart (sym e), Absent-before before after to di.1)

get_or-behind :
    (pre l : List (Option ℕ)) (x d : Option ℕ)
    → get_or (pre ++ (x ∷ l)) (length pre + 1) d ≡ get_or l 0 d
get_or-behind [] l x d = refl
get_or-behind (y ∷ pre) l x d =
    let shift : suc (length pre) + 1 ≡ suc (length pre + 1) = omega arith in
    ap (λ i. get_or (y ∷ (pre ++ (x ∷ l))) i d) shift ∙ get_or-behind pre l x d

-- What the array holds behind `to` is given the delay of `to`.
lengthen-array :
    (t : Timers) (to : ℕ) (after : List ℕ) (k : ℕ)
    → lengthen (get_or (array after k) 0 none) to t
      ≡ record t { values = given_on t.values to after }
lengthen-array t to [] zero = refl
lengthen-array t to [] (suc k) = refl
lengthen-array t to (q ∷ after) k = refl

given_on-nil :
    (values : ℕ → ℕ) (to : ℕ) (after : List ℕ)
    → length after ≡ 0
    → given_on values to after ≡ values
given_on-nil values to [] e = refl
given_on-nil values to (q ∷ after) e = absurd (omega arith)

remove_at_lem :
    (pre : List (Option ℕ)) (after : List ℕ) (to k : ℕ) (values : ℕ → ℕ)
    → length pre + length after + k ≡ 3
    → remove_at
        (record { slots = pre ++ (some to ∷ array after k); values = values })
        to
        (length pre)
      ≡ (true, record { slots = pre ++ array after (suc k); values = given_on values to after })
unfolding remove_at
remove_at_lem pre after to k values e =
    let t : Timers = record { slots = pre ++ (some to ∷ array after k); values = values } in
    let inside : (length pre == 4) ≡ false = ground arith in
    let moved : set (shift_left (3 - length pre) (length pre) t.slots) 3 none
        ≡ pre ++ array after (suc k) =
      shift_lem pre (array after k) (some to) (omega (arith, length-array after k))
      ∙ ap (λ l. pre ++ l) (array-concat after k) in
    rw (inside, moved)
      (ap (λ v. (true, record { slots = pre ++ array after (suc k); values = v }))
        (elim (Bool-cases (ltb (length pre) 3)) [
          | inl more ↦ rw more (
              ap (λ (u : Timers). u.values)
                (ap (λ o. lengthen o to t) (get_or-behind pre (array after k) (some to) none)
                  ∙ lengthen-array t to after k))
          | inr last ↦ rw last (sym (given_on-nil values to after (ground arith)))
        ]))

removed :
    (t : Timers) (before after : List ℕ) (to : ℕ)
    → (held : Holds t (before ++ (to ∷ after))) → Distinct (before ++ (to ∷ after))
    → remove_timeout t to ≡ (
      true,
      record {
        slots = array (before ++ after) (suc held.free);
        values = given_on t.values to after;
      },
    )
unfolding remove_timeout
removed t before after to held di =
    let pre = map some before in
    let same : length pre ≡ length before = length-map before some in
    let slots_is : t.slots ≡ pre ++ (some to ∷ array after held.free) =
      held.slots ∙ array-append before (to ∷ after) held.free in
    let size : length before + length after + held.free ≡ 3 =
      omega (arith, held.size, length-append before (to ∷ after)) in
    let found : find 4 0 to t.slots ≡ length pre =
      ap (find 4 0 to) held.slots
      ∙ find_lem before after held.free 4 to [] (Absent-before before after to di) (omega arith)
      ∙ omega arith in
    rw found (
      ap (λ l. remove_at (record { slots = l; values = t.values }) to (length pre)) slots_is
      ∙ remove_at_lem pre after to held.free t.values (omega arith)
      ∙ ap (λ l. (true, record { slots = l; values = given_on t.values to after }))
          (sym (array-append before after (suc held.free))))

-- `_remove_timeout` for a timeout in the list: it returns 0, the array stays packed without the
-- timeout, and every other deadline is as it was, in the same order. The list holds no timeout
-- twice, and no deadline leaves the positive range of an `int`.
pub remove_timeout-without :
    (t : Timers) (before after : List ℕ) (to : ℕ)
    → (held : Holds t (before ++ (to ∷ after))) → Distinct (before ++ (to ∷ after))
    → InRange 0 t.values (before ++ (to ∷ after))
    → ((remove_timeout t to).0 ≡ true)
      × ((remove_timeout t to).1.slots ≡ array (before ++ after) (suc held.free))
      × (deadlines 0 (remove_timeout t to).1.values (before ++ after)
          ≡ without to (deadlines 0 t.values (before ++ (to ∷ after))))
unfolding remove_timeout
remove_timeout-without t before after to held di ra =
    rw (removed t before after to held di)
      (refl, refl, deadlines-without before after 0 to t.values di ra)

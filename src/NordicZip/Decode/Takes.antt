-- ===== src/NordicZip/Decode/Takes.antt =====
-- A round of `nz_decode_chunk` that takes bytes off the receive buffer.
use libdfu.Base.{
  ℕ, ◌+◌, ◌-◌, ◌*◌, ◌≤◌, ◌<◌, ◌≡◌, ◌≢◌, refl, ap, ◌∙◌, Bool, true, false, Option, none, some, ◌==◌,
  leb, min, arith, Bool-cases, inl, inr, ◌⊎◌, if◌then◌else◌, take, drop,
}
use libdfu.Base.Word.{add32, sub32}
use libdfu.BinaryFile.{BinaryFile, bf_count, bf_count_to_end}
use libdfu.Append.Copy.{IsReceiving, buf_size-IsSize}
use libdfu.Circular.Laws.{count_to_end-eq-min}
use libdfu.Ihex.Reads.{Kept, Kept-IsReceiving, far, far-tail, far-step, go_on-mod}
use libdfu.NordicZip.{
  Zip, NzData, NzState, FileCalls, idle, ignoring_file, storing_file, sending_command, sending_data,
  all_done,
}
use libdfu.NordicZip.Receive.{
  moved_tail, counted_in, file_written, file_at, put_file, kept_locally, do_store, do_ignore,
}
use libdfu.NordicZip.Decode.{header_done, Step, went_on, same_state, is_error}
use libdfu.NordicZip.Decode.Headers.{Took}

Kept-count : {a b : BinaryFile} → Kept a b → bf_count b ≡ bf_count a
unfolding bf_count
Kept-count k = rw (k.same_head, k.same_tail, k.same_size) refl

count_to_end-inside : (bf : BinaryFile) → IsReceiving bf → bf_count_to_end bf ≤ bf_count bf
unfolding bf_count_to_end bf_count
count_to_end-inside bf v =
    rw v.whole (omega (arith, count_to_end-eq-min buf_size-IsSize v.head_in v.tail_in))

abbrev pub rank : NzState → ℕ
rank idle = 0
rank ignoring_file = 1
rank storing_file = 1
rank sending_command = 1
rank sending_data = 1
rank all_done = 1

pub rank-le : (s : NzState) → rank s ≤ 1
rank-le idle = omega arith
rank-le ignoring_file = omega arith
rank-le storing_file = omega arith
rank-le sending_command = omega arith
rank-le sending_data = omega arith
rank-le all_done = omega arith

abbrev pub same : NzState → NzState → Bool
same a b = same_state a b

pub same_refl : (s : NzState) → same s s ≡ true
same_refl idle = refl
same_refl ignoring_file = refl
same_refl storing_file = refl
same_refl sending_command = refl
same_refl sending_data = refl
same_refl all_done = refl

either :
    (b : Bool) (p q : NzData) (s : NzState)
    → p.state ≡ idle
    → q.state ≡ s
    → ((if b then p else q).state ≡ s) ⊎ ((if b then p else q).state ≡ idle)
either true p q s back stays = inr back
either false p q s back stays = inl stays

module _ {E : Type 0} where
  moved-IsReceiving : (z : Zip E) (k : ℕ) → IsReceiving z.bf → IsReceiving (moved_tail z k).bf
  moved-IsReceiving z k v = record {
    whole = v.whole;
    storage = v.storage;
    head_in = v.head_in;
    tail_in = omega (arith, go_on-mod z.bf z.bf.tail k v);
  }

  moved-count :
      (z : Zip E) (k : ℕ)
      → IsReceiving z.bf
      → k ≤ bf_count z.bf
      → bf_count (moved_tail z k).bf ≡ bf_count z.bf - k
  moved-count z k v le =
      let start = far-tail z.bf v in
      far-tail (moved_tail z k).bf (moved-IsReceiving z k v)
      ∙ ap (far z.bf) (go_on-mod z.bf z.bf.tail k v)
      ∙ far-step z.bf z.bf.tail k v v.tail_in (omega (arith, start, le))
      ∙ omega (arith, start)

  -- What is left to do falls with every round that goes on.
  abbrev pub left : Zip E → ℕ
  left z = 2 * bf_count z.bf + rank z.priv.state

  -- A round keeps the receive buffer well formed, and leaves the loop or less to do.
  abbrev pub Fine : Zip E → Step E → Type 0
  Fine z (do_break, r, addr, z') =
      IsReceiving z'.bf
      × ((same z'.priv.state z.priv.state ≡ true)
          ⊎ ((is_error r ≡ true) ⊎ ((do_break ≡ true) ⊎ (left z' < left z))))

  pub header_done-Fine :
      (z : Zip E) (addr : ℕ) (r : Option ℕ × Zip E)
      → IsReceiving z.bf
      → z.priv.state ≡ idle
      → Took z r
      → Fine z (went_on addr (header_done r))
  header_done-Fine z addr (none, z') v at took = (Kept-IsReceiving took v, inr (inl refl))
  header_done-Fine z addr (some stat, z') v at (kept, le, nothing) = elim (Bool-cases (stat == 0)) [
    | inl t ↦
        let same_z : z' ≡ z = nothing (ground (arith, t)) in
        rw (t, same_z) (v, inl (same_refl z.priv.state))
    | inr t ↦
        let v' = Kept-IsReceiving kept v in
        let count = moved-count z' stat v' (omega (arith, Kept-count kept, le)) in
        let some_bytes : stat ≢ 0 = ground (arith, t) in
        let low : rank z.priv.state ≡ 0 = ap rank at in
        let high : rank z'.priv.state ≤ 1 = rank-le z'.priv.state in
        rw t (
          moved-IsReceiving z' stat v',
          inr (inr (inr (omega (arith, count, Kept-count kept, le, some_bytes, low, high)))),
        )
  ]

  -- A round that takes bytes off the receive buffer and stays in its state or goes back to the first.
  taken-Fine :
      (z : Zip E) (addr k : ℕ) (p : NzData)
      → IsReceiving z.bf
      → rank z.priv.state ≡ 1
      → k ≤ bf_count z.bf
      → (p.state ≡ z.priv.state) ⊎ (p.state ≡ idle)
      → Fine z (went_on addr (some 0, moved_tail (record z { priv = p }) k))
  taken-Fine z addr k p v at le (inl stays) =
      (moved-IsReceiving z k v, inl (ap (λ s. same s z.priv.state) stays ∙ same_refl z.priv.state))
  taken-Fine z addr k p v at le (inr back) =
      let low : rank p.state ≡ 0 = ap rank back in
      (moved-IsReceiving z k v, inr (inr (inr (omega (arith, moved-count z k v le, low, at)))))

  pub do_ignore-Fine :
      (z : Zip E) (addr : ℕ)
      → IsReceiving z.bf
      → z.priv.state ≡ ignoring_file
      → Fine z (went_on addr (do_ignore z))
  unfolding do_ignore
  do_ignore-Fine z addr v at =
      let p = record z.priv { ignored = add32 z.priv.ignored (bf_count z.bf) } in
      let done = leb p.ignored_size p.ignored in
      taken-Fine z addr (bf_count z.bf) (if done then record p { state = idle } else p) v
        (ap rank at) (omega arith)
        (either done (record p { state = idle }) p z.priv.state refl refl)

  counted_in-Fine :
      (z : Zip E) (addr sz : ℕ)
      → IsReceiving z.bf
      → z.priv.state ≡ storing_file
      → sz ≤ bf_count z.bf
      → Fine z (went_on addr (some 0, counted_in z sz))
  counted_in-Fine z addr sz v at le =
      let rf = file_at z.priv z.priv.curr_rf in
      let rf' = record rf { done = add32 rf.done sz } in
      let p = put_file z.priv z.priv.curr_rf rf' in
      let back = record p { rx_file_count = p.rx_file_count + 1; state = idle } in
      let done = leb rf'.size rf'.done in
      taken-Fine z addr sz (if done then back else p) v (ap rank at) le
        (either done back p z.priv.state refl refl)

  either-Fine :
      (z : Zip E) (addr : ℕ) (b : Bool) (r r' : Option ℕ × Zip E)
      → Fine z (went_on addr r)
      → Fine z (went_on addr r')
      → Fine z (went_on addr (if b then r else r'))
  either-Fine z addr true r r' f f' = f
  either-Fine z addr false r r' f f' = f'

  module _ (calls : FileCalls E) where
    written-Fine :
        (z : Zip E) (addr sz : ℕ) (r : Bool × E)
        → IsReceiving z.bf
        → z.priv.state ≡ storing_file
        → sz ≤ bf_count z.bf
        → Fine z (went_on addr (file_written calls z sz r))
    written-Fine z addr sz (false, e) v at le = (v, inr (inl refl))
    written-Fine z addr sz (true, e) v at le =
        counted_in-Fine (record z { rest = e }) addr sz v at le

    pub do_store-Fine :
        (z : Zip E) (addr : ℕ)
        → IsReceiving z.bf
        → z.priv.state ≡ storing_file
        → Fine z (went_on addr (do_store calls z))
    unfolding do_store
    do_store-Fine z addr v at =
        let rf = file_at z.priv z.priv.curr_rf in
        let room = min (bf_count_to_end z.bf) (sub32 rf.size rf.done) in
        let sz = min room (sub32 (sub32 rf.local_buf_size rf.local_buf_offset) 1) in
        let there = drop z.bf.tail z.bf.buf in
        let inside = count_to_end-inside z.bf v in
        let z' = record z { priv = kept_locally z.priv (take sz there) sz } in
        let written = calls.write z.rest rf.fd (take room there) in
        either-Fine z addr rf.is_local (some 0, counted_in z' sz)
          (file_written calls z room written)
          (counted_in-Fine z' addr sz v at (omega (arith, inside)))
          (written-Fine z addr room written v at (omega (arith, inside)))

-- ===== src/Raw/Copies.antt =====
-- What `_subcopy` takes out of the receive buffer.
use native.Mathlib.Nat.{mod-lt, mod-add-mod}
use mathlib.Core.Path.{subst}
use libdfu.Base.{
  ◌≢◌, ℕ, zero, suc, ◌+◌, ◌-◌, ◌%◌, ◌≤◌, ◌<◌, ◌≡◌, refl, sym, ap, ap₂, ◌∙◌, min, List, [], ◌∷◌,
  ◌++◌, ◌==◌, take, drop, length, get_or, arith, append_assoc, length-append, Bool-cases, inl, inr,
}
use libdfu.Base.Word.{mask-add32, mask, add32}
use libdfu.BinaryFile.{BinaryFile, bf_count, bf_count_to_end}
use libdfu.Circular.Laws.{count_to_end-eq-min}
use libdfu.Circular.Window.{window, mod-wrap, length-window}
use libdfu.Append.Copy.{IsReceiving, received, buf_size-IsSize, count_is}
use libdfu.Raw.{subcopy, copy_out}

window-add :
    (xs : List ℕ) (i n m : ℕ)
    → i < 2048
    → window 0 2048 xs i (n + m) ≡ window 0 2048 xs i n ++ window 0 2048 xs ((i + n) % 2048) m
window-add xs i zero m h =
    let same : (i + 0) % 2048 ≡ i = omega arith in
    let none_left : 0 + m ≡ m = omega arith in rw (same, none_left) refl
window-add xs i (suc n) m h =
    let step : suc n + m ≡ suc (n + m) = omega arith in
    let place : ((i + 1) % 2048 + n) % 2048 ≡ (i + suc n) % 2048 =
      mod-add-mod (i + 1) 2048 n ∙ ap (λ t. t % 2048) (omega arith) in
    ap (window 0 2048 xs i) step
    ∙ ap (λ t. get_or xs i 0 ∷ t)
        (window-add xs ((i + 1) % 2048) n m (mod-lt (i + 1) (omega arith)) ∙ rw place refl)

drop-get_or : (xs : List ℕ) (i : ℕ) → i < length xs → drop i xs ≡ get_or xs i 0 ∷ drop (i + 1) xs
drop-get_or [] i h = absurd (omega arith)
drop-get_or (x ∷ xs) zero h = refl
drop-get_or (x ∷ xs) (suc i) h =
    drop-get_or xs i (omega arith)
    ∙ ap (λ j. get_or xs i 0 ∷ drop j (x ∷ xs)) (let e : suc (i + 1) ≡ suc i + 1 = omega arith in e)

-- A stretch that does not pass the end of the buffer.
take-window :
    (xs : List ℕ) (i n : ℕ)
    → 2048 ≤ length xs
    → i + n ≤ 2048
    → take n (drop i xs) ≡ window 0 2048 xs i n
take-window xs i zero h le = refl
take-window xs i (suc zero) h le = ap (take 1) (drop-get_or xs i (omega arith))
take-window xs i (suc (suc n)) h le =
    let step : (i + 1) % 2048 ≡ i + 1 = omega arith in
    ap (take (suc (suc n))) (drop-get_or xs i (omega arith))
    ∙ ap (λ t. get_or xs i 0 ∷ t)
        (take-window xs (i + 1) (suc n) h (omega arith)
          ∙ ap (λ j. window 0 2048 xs j (suc n)) (sym step))

-- The first `n` bytes have left the receive buffer.
pub record Takes (bf : BinaryFile) (n : ℕ) (bytes : List ℕ) (bf' : BinaryFile) : Type 0 where
  pub valid : IsReceiving bf'
  pub queue : received bf ≡ bytes ++ received bf'
  pub amount : length bytes ≡ n

Takes-trans :
    {bf mid bf' : BinaryFile} {n m : ℕ} {xs ys : List ℕ}
    → Takes bf n xs mid
    → Takes mid m ys bf'
    → Takes bf (n + m) (xs ++ ys) bf'
Takes-trans {xs = xs} {ys = ys} t u = record {
  valid = u.valid;
  queue = t.queue ∙ ap (λ l. xs ++ l) u.queue ∙ sym (append_assoc xs ys _);
  amount = length-append xs ys ∙ omega (arith, t.amount, u.amount);
}

module _ (bf : BinaryFile) (v : IsReceiving bf) where
  copy_out-Takes :
      (sz : ℕ)
      → sz ≤ bf_count bf
      → bf.tail + sz ≤ 2048
      → Takes bf sz (copy_out bf sz).0 (copy_out bf sz).1
  copy_out-Takes sz fits flat =
      let bf' = (copy_out bf sz).1 in
      let at : bf'.tail ≡ (bf.tail + sz) % 2048 =
        rw v.whole (mask-add32 bf.tail sz buf_size-IsSize) in
      let valid : IsReceiving bf' = record {
        whole = v.whole;
        storage = v.storage;
        head_in = v.head_in;
        tail_in = rw at (mod-lt (bf.tail + sz) (omega arith));
      } in
      let fewer : bf_count bf ≡ sz + bf_count bf' = ground (
        arith,
        count_is bf v,
        count_is bf' valid,
        at,
        v.head_in,
        v.tail_in,
        mod-wrap (bf.tail + sz) 2048,
      ) in
      let here = take-window bf.buf bf.tail sz v.storage flat in
      record {
        valid = valid;
        queue =
            ap (window 0 2048 bf.buf bf.tail) fewer
            ∙ window-add bf.buf bf.tail sz (bf_count bf') v.tail_in
            ∙ ap₂ (λ l j. l ++ window 0 2048 bf.buf j (bf_count bf')) (sym here) (sym at);
        amount = ap length here ∙ length-window 0 2048 bf.buf bf.tail sz;
      }

  to_end_is : bf_count_to_end bf ≡ min (bf_count bf) (2048 - bf.tail)
  unfolding bf_count_to_end bf_count
  to_end_is = rw v.whole (count_to_end-eq-min buf_size-IsSize v.head_in v.tail_in)

Takes-none : (bf : BinaryFile) → IsReceiving bf → Takes bf 0 [] bf
Takes-none bf v = record { valid = v; queue = refl; amount = refl }

count_is_length : (bf : BinaryFile) → length (received bf) ≡ bf_count bf
count_is_length bf = length-window 0 2048 bf.buf bf.tail (bf_count bf)

module _ (bf : BinaryFile) (v : IsReceiving bf) (out_sz : ℕ) where
  abbrev first_sz : ℕ
  first_sz = min out_sz (bf_count_to_end bf)

  abbrev mid : BinaryFile
  mid = (copy_out bf first_sz).1

  first-Takes : Takes bf first_sz (copy_out bf first_sz).0 mid
  first-Takes =
      copy_out-Takes bf v first_sz (omega (arith, to_end_is bf v))
        (omega (arith, to_end_is bf v, v.tail_in))

  count-mid : bf_count bf ≡ first_sz + bf_count mid
  count-mid =
      let t = first-Takes in
      omega (
        arith,
        count_is_length bf,
        count_is_length mid,
        ap length t.queue,
        length-append (copy_out bf first_sz).0 (received mid),
        t.amount,
      )

  abbrev second_sz : ℕ
  second_sz = min (out_sz - first_sz) (bf_count mid)

  tail-mid : mid.tail ≡ (bf.tail + first_sz) % 2048
  tail-mid =
      ap (mask (add32 bf.tail first_sz)) v.whole ∙ mask-add32 bf.tail first_sz buf_size-IsSize

  second-flat : first_sz ≢ out_sz → mid.tail + second_sz ≤ 2048
  second-flat ne =
      let small : bf_count bf ≤ 2047 = ground (arith, count_is bf v, v.head_in, v.tail_in) in
      let taken : first_sz ≡ min (bf_count bf) (2048 - bf.tail) =
        omega (arith, ne, to_end_is bf v) in
      omega (arith, small, taken, count-mid, tail-mid, v.tail_in)

  -- `_subcopy` takes the oldest bytes off a well-formed receive buffer, in order, `out_sz` of them or as many
  -- as there are, also where they pass the end of the buffer.
  pub subcopy-Takes :
      Takes bf (min out_sz (bf_count bf)) (subcopy bf out_sz).0 (subcopy bf out_sz).1
  unfolding subcopy
  subcopy-Takes = elim (Bool-cases (first_sz == 0)) [
    | inl nothing ↦
        let e : 0 ≡ min out_sz (bf_count bf) = ground (arith, nothing, to_end_is bf v, v.tail_in) in
        rw nothing (subst (λ n. Takes bf n [] bf) e (Takes-none bf v))
    | inr something ↦ elim (Bool-cases (first_sz == out_sz)) [
      | inl all ↦
          let e : first_sz ≡ min out_sz (bf_count bf) = ground (arith, all, to_end_is bf v) in
          rw (something, all) (subst (λ n. Takes bf n (copy_out bf first_sz).0 mid) e first-Takes)
      | inr part ↦
          let e : first_sz + second_sz ≡ min out_sz (bf_count bf) =
            ground (arith, part, count-mid, to_end_is bf v) in
          rw (something, part)
            (subst
              (λ n.
                Takes bf n ((copy_out bf first_sz).0 ++ (copy_out mid second_sz).0)
                  (copy_out mid second_sz).1)
              e
              (Takes-trans first-Takes (
                copy_out-Takes mid first-Takes.valid second_sz (omega arith)
                  (second-flat (ground (arith, part))))))
    ]
  ]

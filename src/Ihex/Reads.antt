-- ===== src/Ihex/Reads.antt =====
-- How far `_decode_hex` and `_search_line` move their index.
use native.Mathlib.Nat.{mod-add-mod, mod-lt}
use libdfu.Base.{
  ℕ, zero, suc, ◌+◌, ◌-◌, ◌%◌, ◌≤◌, ◌<◌, ◌≡◌, ◌≢◌, refl, ap, ◌∙◌, Option, none, some, ◌==◌, leb,
  if◌then◌else◌, arith, Bool-cases, inl, inr, get_or,
}
use libdfu.Base.Word.{mask-add32}
use libdfu.BinaryFile.{BinaryFile, bf_count}
use libdfu.Circular.Window.{mod-wrap}
use libdfu.Append.Copy.{IsReceiving, buf_size-IsSize, count_is}
use libdfu.Ihex.{Hex, go_on, put_digit, take_digit, hex_to_int, hex_round, hex_loop}

-- The receive side of a file, which decoding a digit leaves as it is.
pub record Kept (bf bf' : BinaryFile) : Type 0 where
  pub same_buf : bf'.buf ≡ bf.buf
  pub same_head : bf'.head ≡ bf.head
  pub same_tail : bf'.tail ≡ bf.tail
  pub same_size : bf'.max_size ≡ bf.max_size

pub Kept-refl : (bf : BinaryFile) → Kept bf bf
Kept-refl bf = record { same_buf = refl; same_head = refl; same_tail = refl; same_size = refl }

Kept-trans : {a b c : BinaryFile} → Kept a b → Kept b c → Kept a c
Kept-trans k l = record {
  same_buf = l.same_buf ∙ k.same_buf;
  same_head = l.same_head ∙ k.same_head;
  same_tail = l.same_tail ∙ k.same_tail;
  same_size = l.same_size ∙ k.same_size;
}

pub Kept-IsReceiving : {a b : BinaryFile} → Kept a b → IsReceiving a → IsReceiving b
Kept-IsReceiving k v = record {
  whole = k.same_size ∙ v.whole;
  storage = rw k.same_buf v.storage;
  head_in = rw k.same_head v.head_in;
  tail_in = rw k.same_tail v.tail_in;
}

take_digit-Kept : (nbytes i stat : ℕ) (s : Hex) → Kept s.file (take_digit nbytes i stat s).file
unfolding take_digit put_digit
take_digit-Kept nbytes i stat s = elim (Bool-cases s.to_buf) [
  | inl buf ↦ elim (Bool-cases (i % 2 == 0)) [
    | inl even ↦
        rw (buf, even)
          (record { same_buf = refl; same_head = refl; same_tail = refl; same_size = refl })
    | inr odd ↦
        rw (buf, odd)
          (record { same_buf = refl; same_head = refl; same_tail = refl; same_size = refl })
  ]
  | inr number ↦
      rw number (record { same_buf = refl; same_head = refl; same_tail = refl; same_size = refl })
]

-- The bytes from an index to the head.
abbrev pub far : BinaryFile → ℕ → ℕ
far bf index = if leb index bf.head then bf.head - index else bf.head + 2048 - index

pub far-tail : (bf : BinaryFile) → IsReceiving bf → bf_count bf ≡ far bf bf.tail
far-tail bf v = count_is bf v

pub far-step :
    (bf : BinaryFile) (index k : ℕ)
    → IsReceiving bf
    → index < 2048
    → k ≤ far bf index
    → far bf ((index + k) % 2048) ≡ far bf index - k
far-step bf index k v h le = ground (arith, v.head_in, mod-wrap (index + k) 2048)

pub go_on-mod :
    (bf : BinaryFile) (index k : ℕ) → IsReceiving bf → go_on bf index k ≡ (index + k) % 2048
go_on-mod bf index k v = rw v.whole (mask-add32 index k buf_size-IsSize)

-- The digits taken, `k` of them.
pub record Moved (n i j : ℕ) (s s' : Hex) : Type 0 where
  pub k : ℕ
  pub took : j ≡ i + k
  pub most : k ≤ n
  pub within : k ≤ far s.file s.index
  pub kept : Kept s.file s'.file
  pub at : s'.index ≡ (s.index + k) % 2048

abbrev pub Reads : ℕ → ℕ → Hex → Option ℕ × Hex → Type 0
Reads n i s (none, s') = Unit
Reads n i s (some j, s') = Moved n i j s s'

take_digit-index :
    (nbytes i stat : ℕ) (s : Hex)
    → IsReceiving s.file
    → (take_digit nbytes i stat s).index ≡ (s.index + 1) % 2048
unfolding take_digit
take_digit-index nbytes i stat s v = go_on-mod s.file s.index 1 v

still : (n i : ℕ) (s : Hex) → s.index < 2048 → Moved n i i s s
still n i s h = record {
  k = 0;
  took = omega arith;
  most = omega arith;
  within = omega arith;
  kept = Kept-refl s.file;
  at = omega arith;
}

Reads-one :
    (n nbytes i stat : ℕ) (s : Hex)
    → IsReceiving s.file
    → s.index < 2048
    → s.index ≢ s.file.head
    → (r : Option ℕ × Hex) → Reads n (i + 1) (take_digit nbytes i stat s) r
    → Reads (suc n) i s r
Reads-one n nbytes i stat s v h ne (none, s') m = tt
Reads-one n nbytes i stat s v h ne (some j, s') m =
    let kept = take_digit-Kept nbytes i stat s in
    let step = take_digit-index nbytes i stat s v in
    let near : far s.file ((s.index + 1) % 2048) ≡ far s.file s.index - 1 =
      far-step s.file s.index 1 v h (ground arith) in
    let same : far (take_digit nbytes i stat s).file (take_digit nbytes i stat s).index
        ≡ far s.file s.index - 1 =
      ap (λ x. far (take_digit nbytes i stat s).file x) step
      ∙ ap
          (λ x.
            if leb ((s.index + 1) % 2048) x
            then x - (s.index + 1) % 2048
            else x + 2048 - (s.index + 1) % 2048)
          kept.same_head
      ∙ near in
    record {
      k = suc m.k;
      took = omega (arith, m.took);
      most = omega (arith, m.most);
      within = ground (arith, same, m.within);
      kept = Kept-trans kept m.kept;
      at =
          m.at
          ∙ ap (λ x. (x + m.k) % 2048) step
          ∙ mod-add-mod (s.index + 1) 2048 m.k
          ∙ ap (λ x. x % 2048) (omega arith);
    }

pub hex_loop-Reads :
    (n nbytes i : ℕ) (s : Hex)
    → IsReceiving s.file
    → s.index < 2048
    → Reads n i s (hex_loop n nbytes i s)
unfolding hex_loop hex_round
hex_loop-Reads zero nbytes i s v h = still zero i s h
hex_loop-Reads (suc n) nbytes i s v h = elim (Bool-cases (s.index == s.file.head)) [
  | inl end ↦ rw end (still (suc n) i s h)
  | inr go ↦ rw go (
      digit (hex_to_int (get_or s.file.buf s.index 0)) (ground arith) (λ stat.
        hex_loop-Reads n nbytes (i + 1) (take_digit nbytes i stat s)
          (Kept-IsReceiving (take_digit-Kept nbytes i stat s) v)
          (rw (take_digit-index nbytes i stat s v) (mod-lt (s.index + 1) (omega arith)))))
]
  where
    digit :
        (o : Option ℕ)
        → s.index ≢ s.file.head
        → ((stat : ℕ)
            → Reads n
                (i + 1)
                (take_digit nbytes i stat s)
                (hex_loop n nbytes (i + 1) (take_digit nbytes i stat s)))
        → Reads (suc n) i s (hex_round (hex_loop n nbytes (i + 1)) nbytes i s o)
    digit none ne ih = tt
    digit (some stat) ne ih =
        Reads-one n nbytes i stat s v h ne (hex_loop n nbytes (i + 1) (take_digit nbytes i stat s))
          (ih stat)

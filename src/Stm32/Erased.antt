-- ===== src/Stm32/Erased.antt =====
-- Which sectors are taken for erased: `test_bit` after `set_bit`, and after `mark_erased`.
use Prim.Native.Nat.{bit_or}
use mathlib.Core.Option.{some-injective, some-ne-none}
use libdfu.Base.{
  ℕ, zero, suc, ◌+◌, ◌-◌, ◌*◌, ◌/◌, ◌%◌, ◌^◌, ◌≤◌, ◌<◌, ◌≡◌, ◌≢◌, refl, sym, ap, ◌∙◌, Bool, true,
  false, ◌||◌, some, List, [], ◌∷◌, ◌==◌, ltb, get_or, set, get_or-set_self, get_or-set_ne, length,
  length-set, arith, Bool-cases, inl, inr,
}
use libdfu.Base.Power.{has_bit, has_bit-or}
use libdfu.Stm32.{
  MemoryArea, test_bit, set_bit, not_erased, to_erase, set_bits, mark_erased, bitmask,
  max_nsectors_erase,
}

-- The bits that fit in the words of a mask, eight of them in each.
abbrev pub bits : List ℕ → ℕ
bits l = 8 * length l

-- In a mask that has room for the bit, `set_bit` sets it and leaves every other as it was.
pub test_bit-set_bit :
    (i j : ℕ) (l : List ℕ) → i < bits l → test_bit j (set_bit i l) ≡ (i == j || test_bit j l)
unfolding test_bit set_bit
test_bit-set_bit i j l room = elim (Bool-cases (i / 8 == j / 8)) [
  | inl word ↦
      let same : j / 8 ≡ i / 8 = ground (arith, word) in
      let bit : (i % 8 == j % 8) ≡ (i == j) = ground (arith, same) in
      ap (λ w. has_bit w (j % 8))
        (ap (λ x. get_or (set l (i / 8) (bit_or (get_or l (i / 8) 0) (2 ^ (i % 8)))) x 0) same
          ∙ get_or-set_self l (i / 8) (bit_or (get_or l (i / 8) 0) (2 ^ (i % 8))) 0 (omega arith))
      ∙ has_bit-or (get_or l (i / 8) 0) (i % 8) (j % 8)
      ∙ ap (λ b. b || has_bit (get_or l (i / 8) 0) (j % 8)) bit
      ∙ ap (λ x. i == j || has_bit (get_or l x 0) (j % 8)) (sym same)
  | inr other ↦
      let ne : i / 8 ≢ j / 8 = ground (arith, other) in
      let apart : (i == j) ≡ false = ground (arith, other) in
      rw apart (
        ap (λ w. has_bit w (j % 8))
          (get_or-set_ne l (i / 8) (j / 8) (bit_or (get_or l (i / 8) 0) (2 ^ (i % 8))) 0 ne))
]

bits-set_bit : (i : ℕ) (l : List ℕ) → bits (set_bit i l) ≡ bits l
unfolding set_bit
bits-set_bit i l =
    ap (λ n. 8 * n) (length-set l (i / 8) (bit_or (get_or l (i / 8) 0) (2 ^ (i % 8))))

-- Sectors whose bits the mask has room for.
abbrev AllIn : List ℕ → ℕ → ℕ → Type 0
AllIn [] offset n = Unit
AllIn (s ∷ sectors) offset n = (s - offset < n) × AllIn sectors offset n

or_true : (b : Bool) → (b || true) ≡ true
or_true true = refl
or_true false = refl

not_erased-AllIn :
    (n i offset : ℕ) (l : List ℕ) (room : ℕ)
    → i + n ≤ room
    → AllIn (not_erased n i offset l) offset room
unfolding not_erased
not_erased-AllIn zero i offset l room le = tt
not_erased-AllIn (suc n) i offset l room le = elim (Bool-cases (test_bit i l)) [
  | inl marked ↦ rw marked (not_erased-AllIn n (i + 1) offset l room (omega arith))
  | inr fresh ↦ rw fresh (omega arith, not_erased-AllIn n (i + 1) offset l room (omega arith))
]

-- Marking never takes a mark away.
marked-set_bits :
    (sectors : List ℕ) (offset j : ℕ) (l : List ℕ)
    → AllIn sectors offset (bits l)
    → test_bit j l ≡ true
    → test_bit j (set_bits sectors offset l) ≡ true
unfolding set_bits
marked-set_bits [] offset j l all e = e
marked-set_bits (s ∷ sectors) offset j l all e =
    marked-set_bits sectors offset j (set_bit (s - offset) l)
      (rw (bits-set_bit (s - offset) l) all.1)
      (test_bit-set_bit (s - offset) j l all.0 ∙ ap (λ b. s - offset == j || b) e ∙ or_true _)

not_erased-none : (i offset : ℕ) (l : List ℕ) → not_erased zero i offset l ≡ []
unfolding not_erased
not_erased-none i offset l = refl

not_erased-marked :
    (n i offset : ℕ) (l : List ℕ)
    → test_bit i l ≡ true
    → not_erased (suc n) i offset l ≡ not_erased n (i + 1) offset l
unfolding not_erased
not_erased-marked n i offset l e = rw e refl

not_erased-fresh :
    (n i offset : ℕ) (l : List ℕ)
    → test_bit i l ≡ false
    → not_erased (suc n) i offset l ≡ (i + offset) ∷ not_erased n (i + 1) offset l
unfolding not_erased
not_erased-fresh n i offset l e = rw e refl

set_bits-first :
    (i offset : ℕ) (rest l : List ℕ)
    → set_bits ((i + offset) ∷ rest) offset l ≡ set_bits rest offset (set_bit i l)
unfolding set_bits
set_bits-first i offset rest l =
    let index : i + offset - offset ≡ i = omega arith in
    ap (λ k. set_bits rest offset (set_bit k l)) index

-- Once the sectors that were not erased are marked, none of them is left to erase.
not_erased-set_bits :
    (n i offset : ℕ) (l m : List ℕ)
    → i + n ≤ bits l
    → bits m ≡ bits l
    → ((j : ℕ) → test_bit j l ≡ true → test_bit j m ≡ true)
    → not_erased n i offset (set_bits (not_erased n i offset l) offset m) ≡ []
not_erased-set_bits zero i offset l m room same keeps = not_erased-none i offset _
not_erased-set_bits (suc n) i offset l m room same keeps = elim (Bool-cases (test_bit i l)) [
  | inl marked ↦
      let rest = not_erased n (i + 1) offset l in
      let fits = not_erased-AllIn n (i + 1) offset l (bits m) (omega (arith, same)) in
      ap (λ r. not_erased (suc n) i offset (set_bits r offset m))
        (not_erased-marked n i offset l marked)
      ∙ not_erased-marked n i offset (set_bits rest offset m)
          (marked-set_bits rest offset i m fits (keeps i marked))
      ∙ not_erased-set_bits n (i + 1) offset l m (omega arith) same keeps
  | inr fresh ↦
      let rest = not_erased n (i + 1) offset l in
      let m' = set_bit i m in
      let self : (i == i) ≡ true = ground arith in
      let in_mask : i < bits m = omega (arith, same) in
      let size : bits m' ≡ bits l = bits-set_bit i m ∙ same in
      let set_it : test_bit i m' ≡ true =
        test_bit-set_bit i i m in_mask ∙ ap (λ b. b || test_bit i m) self in
      let fits = not_erased-AllIn n (i + 1) offset l (bits m') (omega (arith, size)) in
      ap (λ r. not_erased (suc n) i offset (set_bits r offset m))
        (not_erased-fresh n i offset l fresh)
      ∙ ap (not_erased (suc n) i offset) (set_bits-first i offset rest m)
      ∙ not_erased-marked n i offset (set_bits rest offset m')
          (marked-set_bits rest offset i m' fits set_it)
      ∙ not_erased-set_bits n (i + 1) offset l m' (omega arith) size (λ j e.
        test_bit-set_bit i j m in_mask ∙ ap (λ b. i == j || b) (keeps j e) ∙ or_true (i == j))
]

-- A chunk whose sectors have been erased: after `mark_erased` on what `erased` listed for it, `erased`
-- lists nothing for it. The chunk lies in two sectors at most, whose bits the mask has room for, eight
-- in each word.
pub to_erase-mark_erased :
    (a : MemoryArea) (start nsec : ℕ) (sectors : List ℕ)
    → start - a.sectors_offset + nsec ≤ bits (bitmask a)
    → to_erase a (start, nsec) ≡ some sectors
    → to_erase (mark_erased a sectors) (start, nsec) ≡ some []
unfolding to_erase mark_erased
to_erase-mark_erased a start nsec sectors room e = elim (Bool-cases (ltb max_nsectors_erase nsec)) [
  | inl many ↦ absurd (some-ne-none sectors (sym (rw many at e)))
  | inr few ↦
      let listed = some-injective _ _ (rw few at e) in
      rw few (
        ap some (
          ap
            (λ l.
              not_erased nsec (start - a.sectors_offset) a.sectors_offset
                (set_bits l a.sectors_offset (bitmask a)))
            (sym listed)
          ∙ not_erased-set_bits nsec (start - a.sectors_offset) a.sectors_offset (bitmask a)
              (bitmask a) room refl (λ j h. h)))
]

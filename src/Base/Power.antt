-- ===== src/Base/Power.antt =====
-- Single bits of a word: `w & (1 << j)` after `w | (1 << k)`.
use Prim.Native.Nat.{max, bit_and, bit_or}
use native.Mathlib.Nat.{pow-suc}
use libdfu.Base.{
  ℕ, zero, suc, ◌+◌, ◌*◌, ◌/◌, ◌%◌, ◌^◌, min, ◌≡◌, refl, sym, ap, ◌∙◌, Bool, false, not, ◌||◌, ◌==◌,
  arith,
}
use libdfu.Base.Bits.{bit_and_digit, bit_or_digit, bit_and-zero, bit_or-zero}

abbrev pub has_bit : ℕ → ℕ → Bool
has_bit w j = not (bit_and w (2 ^ j) == 0)

half-pow : (k : ℕ) → 2 ^ suc k / 2 ≡ 2 ^ k
half-pow k = omega (arith, pow-suc 2 k)

even-pow : (k : ℕ) → 2 ^ suc k % 2 ≡ 0
even-pow k = omega (arith, pow-suc 2 k)

bit_and-pow_suc : (x k : ℕ) → bit_and x (2 ^ suc k) ≡ bit_and (x / 2) (2 ^ k) * 2
bit_and-pow_suc x k =
    bit_and_digit x (2 ^ suc k)
    ∙ ap (λ y. bit_and (x / 2) y * 2 + min (x % 2) (2 ^ suc k % 2)) (half-pow k)
    ∙ omega (arith, even-pow k)

bit_and-one : (x : ℕ) → bit_and x 1 ≡ x % 2
bit_and-one x = bit_and_digit x 1 ∙ omega (arith, bit_and-zero (x / 2))

bit_or-pow_suc : (x k : ℕ) → bit_or x (2 ^ suc k) ≡ bit_or (x / 2) (2 ^ k) * 2 + x % 2
bit_or-pow_suc x k =
    bit_or_digit x (2 ^ suc k)
    ∙ ap (λ y. bit_or (x / 2) y * 2 + max (x % 2) (2 ^ suc k % 2)) (half-pow k)
    ∙ omega (arith, even-pow k)

bit_or-one : (x : ℕ) → bit_or x 1 ≡ x / 2 * 2 + 1
bit_or-one x = bit_or_digit x 1 ∙ omega (arith, bit_or-zero (x / 2))

has_bit-suc : (x j : ℕ) → has_bit x (suc j) ≡ has_bit (x / 2) j
has_bit-suc x j = ground (arith, bit_and-pow_suc x j)

-- Setting one bit sets that bit and no other.
pub has_bit-or : (x k j : ℕ) → has_bit (bit_or x (2 ^ k)) j ≡ (k == j || has_bit x j)
has_bit-or x zero zero =
    let odd : bit_and (bit_or x 1) 1 ≡ 1 = omega (arith, bit_and-one (bit_or x 1), bit_or-one x) in
    rw odd refl
has_bit-or x zero (suc j) =
    let half : bit_or x 1 / 2 ≡ x / 2 = omega (arith, bit_or-one x) in
    let apart : (zero == suc j) ≡ false = ground arith in
    rw apart (has_bit-suc (bit_or x 1) j ∙ ap (λ y. has_bit y j) half ∙ sym (has_bit-suc x j))
has_bit-or x (suc k) zero =
    let low : bit_and (bit_or x (2 ^ suc k)) 1 ≡ bit_and x 1 =
      omega (arith, bit_and-one (bit_or x (2 ^ suc k)), bit_or-pow_suc x k, bit_and-one x) in
    let apart : (suc k == zero) ≡ false = ground arith in rw (low, apart) refl
has_bit-or x (suc k) (suc j) =
    let half : bit_or x (2 ^ suc k) / 2 ≡ bit_or (x / 2) (2 ^ k) =
      omega (arith, bit_or-pow_suc x k) in
    let same : (suc k == suc j) ≡ (k == j) = ground arith in
    has_bit-suc (bit_or x (2 ^ suc k)) j
    ∙ ap (λ y. has_bit y j) half
    ∙ has_bit-or (x / 2) k j
    ∙ ap (λ b. k == j || b) (sym (has_bit-suc x j))
    ∙ ap (λ b. b || has_bit x (suc j)) (sym same)

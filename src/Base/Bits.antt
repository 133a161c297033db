-- ===== src/Base/Bits.antt =====
-- `&`, `|` and `^` on words: the law of the lowest digit, and `x & (2^k - 1)` as a remainder.
use Prim.Native.Nat.{max, digits, bitwise, bit_and, bit_or, bit_xor, differ}
use Prim.Native.Nat.{bit_and-bitwise, bit_or-bitwise, bit_xor-bitwise}
use native.Mathlib.Nat.{le_refl, pow-suc, one-le-pow, mod-lt, mod-eq_of_lt, div-add-mod}
use native.Mathlib.Nat.{div-div-eq-div-mul, mul-add-mod_self_left, zero-add, suc-add}
use libdfu.Base.{
  ℕ, zero, suc, ◌+◌, ◌-◌, ◌*◌, ◌/◌, ◌%◌, ◌^◌, ◌≤◌, ◌<◌, min, ◌≡◌, refl, sym, ap, ◌∙◌, arith,
}

-- The library reads the operations as a recursion with fuel. More fuel changes nothing.
module _ (rest : ℕ → ℕ) (op : ℕ → ℕ → ℕ) where
  digits_enough : (i j x y : ℕ) → x ≤ i → x ≤ j → digits rest op i x y ≡ digits rest op j x y
  digits_enough zero zero x y p q = refl
  digits_enough zero (suc j) zero y p q = refl
  digits_enough zero (suc j) (suc x) y p q = absurd (omega arith)
  digits_enough (suc i) zero zero y p q = refl
  digits_enough (suc i) zero (suc x) y p q = absurd (omega arith)
  digits_enough (suc i) (suc j) zero y p q = refl
  digits_enough (suc i) (suc j) (suc x) y p q =
      rw (digits_enough i j (suc x / 2) (y / 2) (omega arith) (omega arith))

  lowest_digit :
      (x y : ℕ)
      → bitwise rest op (suc x) y ≡ bitwise rest op (suc x / 2) (y / 2) * 2 + op (suc x % 2) (y % 2)
  lowest_digit x y =
      let enough = digits_enough x (suc x / 2) (suc x / 2) (y / 2) (omega arith) (le_refl _) in
      omega (arith, enough)

pub bit_and_digit : (x y : ℕ) → bit_and x y ≡ bit_and (x / 2) (y / 2) * 2 + min (x % 2) (y % 2)
bit_and_digit zero y = simp bit_and-bitwise (omega arith)
bit_and_digit (suc x) y = simp bit_and-bitwise (lowest_digit (λ b. 0) min x y)

pub bit_or_digit : (x y : ℕ) → bit_or x y ≡ bit_or (x / 2) (y / 2) * 2 + max (x % 2) (y % 2)
bit_or_digit zero y = simp bit_or-bitwise (omega arith)
bit_or_digit (suc x) y = simp bit_or-bitwise (lowest_digit (λ b. b) max x y)

differ-zero : (y : ℕ) → differ 0 y ≡ y
differ-zero zero = refl
differ-zero (suc y) = refl

pub bit_xor_digit : (x y : ℕ) → bit_xor x y ≡ bit_xor (x / 2) (y / 2) * 2 + differ (x % 2) (y % 2)
bit_xor_digit zero y = simp bit_xor-bitwise (omega (arith, differ-zero (y % 2)))
bit_xor_digit (suc x) y = simp bit_xor-bitwise (lowest_digit (λ b. b) differ x y)

and_none : (bound x : ℕ) → x ≤ bound → bit_and x 0 ≡ 0
and_none zero zero h = refl
and_none zero (suc x) h = absurd (omega arith)
and_none (suc n) x h = elim_half (and_none n (x / 2))
  where
    elim_half : (x / 2 ≤ n → bit_and (x / 2) 0 ≡ 0) → bit_and x 0 ≡ 0
    elim_half ih = omega (arith, bit_and_digit x 0, ih (omega arith))

pub bit_and-zero : (x : ℕ) → bit_and x 0 ≡ 0
bit_and-zero x = and_none x x (le_refl x)

or_none : (bound x : ℕ) → x ≤ bound → bit_or x 0 ≡ x
or_none zero zero h = refl
or_none zero (suc x) h = absurd (omega arith)
or_none (suc n) x h = elim_half (or_none n (x / 2))
  where
    elim_half : (x / 2 ≤ n → bit_or (x / 2) 0 ≡ x / 2) → bit_or x 0 ≡ x
    elim_half ih = omega (arith, bit_or_digit x 0, ih (omega arith))

pub bit_or-zero : (x : ℕ) → bit_or x 0 ≡ x
bit_or-zero x = or_none x x (le_refl x)

-- The remainder by `p * 2` is that of the half by `p`, and the lowest digit.
mod-double : (p y : ℕ) → 0 < p → y % (p * 2) ≡ y / 2 % p * 2 + y % 2
mod-double p y h =
    ap (λ t. t % (p * 2)) whole
    ∙ mul-add-mod_self_left (p * 2) (y / 2 / p) (y / 2 % p * 2 + y % 2)
    ∙ mod-eq_of_lt (omega (arith, mod-lt (y / 2) h))
  where
    whole : y ≡ p * 2 * (y / 2 / p) + (y / 2 % p * 2 + y % 2)
    whole = omega (arith, div-add-mod (y / 2) p)

-- A mask of the `k` low bits leaves the remainder by `2 ^ k`.
pub bit_and_low : (k x : ℕ) → bit_and x (2 ^ k - 1) ≡ x % 2 ^ k
bit_and_low zero x = rw bit_and-zero (omega arith)
bit_and_low (suc k) x = ground (
  arith,
  bit_and_digit x (2 ^ suc k - 1),
  bit_and_low k (x / 2),
  pow-suc 2 k,
  one-le-pow k 2,
  mod-double (2 ^ k) x,
)

pub pow_add : (i j : ℕ) → 2 ^ (i + j) ≡ 2 ^ i * 2 ^ j
pow_add zero j = ap (λ t. 2 ^ t) (zero-add j) ∙ omega arith
pow_add (suc i) j =
    ap (λ t. 2 ^ t) (suc-add i j)
    ∙ omega (
      arith,
      pow-suc 2 (i + j),
      ap (λ (t : ℕ). t * 2 ^ j) (pow-suc 2 i),
      ap (λ (t : ℕ). t * 2) (pow_add i j),
    )

differ_bits : (a b : ℕ) → a < 2 → b < 2 → differ a b ≡ (a + b) % 2
differ_bits zero zero h k = refl
differ_bits zero (suc zero) h k = refl
differ_bits zero (suc (suc b)) h k = absurd (omega arith)
differ_bits (suc zero) zero h k = refl
differ_bits (suc zero) (suc zero) h k = refl
differ_bits (suc zero) (suc (suc b)) h k = absurd (omega arith)
differ_bits (suc (suc a)) b h k = absurd (omega arith)

differ_digits : (x y : ℕ) → differ (x % 2) (y % 2) ≡ (x + y) % 2
differ_digits x y =
    let low = differ_bits (x % 2) (y % 2) (omega arith) (omega arith) in omega (arith, low)

half_digit : (x k : ℕ) → x / 2 ^ suc k ≡ x / 2 / 2 ^ k
half_digit x k =
    let twice : 2 ^ suc k ≡ 2 * 2 ^ k = omega (arith, pow-suc 2 k) in
    ap (λ p. x / p) twice ∙ sym (div-div-eq-div-mul x 2 (2 ^ k))

-- A digit of `x ^ y` is the parity of the two digits.
pub bit_xor-digit_at : (x y k : ℕ) → bit_xor x y / 2 ^ k % 2 ≡ (x / 2 ^ k % 2 + y / 2 ^ k % 2) % 2
bit_xor-digit_at x y zero = omega (arith, bit_xor_digit x y, differ_digits x y)
bit_xor-digit_at x y (suc k) =
    let half : bit_xor x y / 2 ≡ bit_xor (x / 2) (y / 2) =
      omega (arith, bit_xor_digit x y, differ_digits x y) in
    rw (half_digit (bit_xor x y) k, half, half_digit x k, half_digit y k)
      (bit_xor-digit_at (x / 2) (y / 2) k)

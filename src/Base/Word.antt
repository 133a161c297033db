-- ===== src/Base/Word.antt =====
-- C `int` as a 32-bit pattern, below 2 ^ 32.
use Prim.Native.Nat.{bit_and}
use native.Mathlib.Nat.{
  one-le-pow, pow-le-pow_right, add-mul-mod_self_right, mod-eq_of_lt, mod-eq-sub-mod,
}
use native.Mathlib.Nat.{mod-lt, mul-add-mod_self_right}
use libdfu.Base.{
  ℕ, ◌+◌, ◌-◌, ◌*◌, ◌%◌, ◌^◌, ◌≤◌, ◌<◌, ◌≡◌, ap, sym, ◌∙◌, ◌/◌, Bool, ltb, leb, if◌then◌else◌,
  arith, leb→le, ltb→lt, Bool-cases, inl, inr,
}
use libdfu.Base.Bits.{bit_and_low, pow_add}

abbrev pub add32 : ℕ → ℕ → ℕ
add32 a b = (a + b) % 2 ^ 32

abbrev pub sub32 : ℕ → ℕ → ℕ
sub32 a b = (a + (2 ^ 32 - b)) % 2 ^ 32

-- `a < b` on two `int`s: the sign bit is the greatest when it is flipped.
abbrev pub slt32 : ℕ → ℕ → Bool
slt32 a b = ltb ((a + 2 ^ 31) % 2 ^ 32) ((b + 2 ^ 31) % 2 ^ 32)

pub slt32_small : (a b : ℕ) → a < 2 ^ 31 → b < 2 ^ 31 → slt32 a b ≡ ltb a b
slt32_small a b ha hb = ground arith

-- `x & (size - 1)`, how the source wraps an index.
unfoldable pub mask : ℕ → ℕ → ℕ
mask x size = bit_and x (sub32 size 1)

-- A buffer size for which the masks work: a power of two that an `int` holds with room to spare.
pub record IsSize (size : ℕ) : Type 0 where
  pub exponent : ℕ
  pub small : exponent ≤ 30
  pub power : size ≡ 2 ^ exponent

pub size_bounds : {size : ℕ} → IsSize size → (0 < size) × (size ≤ 2 ^ 30)
size_bounds z =
    rw z.power (one-le-pow z.exponent 2 (omega arith), pow-le-pow_right (omega arith) z.small)

pub mask-mod : {size : ℕ} (x : ℕ) → IsSize size → mask x size ≡ x % size
unfolding mask
mask-mod {size} x z = ap (bit_and x) ones ∙ rw (← z.power) at (bit_and_low z.exponent x)
  where
    ones : sub32 size 1 ≡ size - 1
    ones = omega (arith, size_bounds z)

-- A full turn of 2 ^ 32 is a whole number of turns of the buffer, one at least.
whole_turns : {size : ℕ} → IsSize size → (q : ℕ) × (2 ^ 32 ≡ (q + 1) * size)
whole_turns {size} z = (2 ^ (32 - z.exponent) - 1, turns)
  where
    split : 2 ^ (32 - z.exponent + z.exponent) ≡ 2 ^ (32 - z.exponent) * 2 ^ z.exponent
    split = pow_add (32 - z.exponent) z.exponent

    sum : 32 - z.exponent + z.exponent ≡ 32
    sum = omega (arith, z.small)

    pred : 2 ^ (32 - z.exponent) - 1 + 1 ≡ 2 ^ (32 - z.exponent)
    pred = omega (arith, one-le-pow (32 - z.exponent) 2)

    turns : 2 ^ 32 ≡ (2 ^ (32 - z.exponent) - 1 + 1) * size
    turns = rw (pred, z.power, ← split, sum)

-- The masked difference of two indices is the distance from the second to the first.
pub mask-sub32 :
    {size : ℕ} (a b : ℕ)
    → IsSize size
    → a < size
    → b ≤ size
    → mask (sub32 a b) size ≡ (if leb b a then a - b else a + size - b)
mask-sub32 {size} a b z ha hb =
    let (q, turns) = whole_turns z in
    let bounds = size_bounds z in
    elim (Bool-cases (leb b a)) [
      | inl ahead ↦
          rw (mask-mod (sub32 a b) z, ahead)
            (let le = leb→le b a ahead in
              let flat : sub32 a b ≡ a - b = omega arith in rw flat (mod-eq_of_lt (omega arith)))
      | inr behind ↦
          rw (mask-mod (sub32 a b) z, behind)
            (let gt : a < b = ground arith in
              let flat : sub32 a b ≡ a + size - b + q * size = omega arith in
              rw (flat, add-mul-mod_self_right) (mod-eq_of_lt (omega arith)))
    ]

-- Up to twice the size the mask takes one turn off at most.
pub mask-wrap :
    {size : ℕ} (x : ℕ)
    → IsSize size
    → x < size + size
    → mask x size ≡ (if ltb x size then x else x - size)
mask-wrap {size} x z h = elim (Bool-cases (ltb x size)) [
  | inl inside ↦ rw (mask-mod x z, inside) (mod-eq_of_lt (ltb→lt x size inside))
  | inr over ↦
      let le : size ≤ x = ground arith in
      rw (mask-mod x z, over) (mod-eq-sub-mod le ∙ mod-eq_of_lt (omega arith))
]

pub mask-lt : {size : ℕ} (x : ℕ) → IsSize size → mask x size < size
mask-lt {size} x z = rw (mask-mod x z) (mod-lt x (size_bounds z).0)

-- The wrap of the sum at 2 ^ 32 does not show behind the mask.
pub mask-add32 : {size : ℕ} (a b : ℕ) → IsSize size → mask (add32 a b) size ≡ (a + b) % size
mask-add32 {size} a b z =
    let (q, turns) = whole_turns z in
    let whole : a + b ≡ 2 ^ 32 * ((a + b) / 2 ^ 32) + add32 a b = omega arith in
    let regroup : 2 ^ 32 * ((a + b) / 2 ^ 32) ≡ (q + 1) * ((a + b) / 2 ^ 32) * size =
      ap (λ (t : ℕ). t * ((a + b) / 2 ^ 32)) turns ∙ omega arith in
    mask-mod (add32 a b) z
    ∙ sym (mul-add-mod_self_right ((q + 1) * ((a + b) / 2 ^ 32)) size (add32 a b))
    ∙ ap (λ t. t % size) (omega (arith, whole, regroup))

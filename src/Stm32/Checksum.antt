-- ===== src/Stm32/Checksum.antt =====
-- The bytes that go to the boot loader: the checksum closes them, and the sectors can be read back.
use Prim.Native.Nat.{bit_xor, differ}
use libdfu.Base.{
  ℕ, zero, suc, ◌+◌, ◌-◌, ◌*◌, ◌/◌, ◌%◌, ◌^◌, ◌≤◌, ◌<◌, ◌≡◌, refl, ap₂, ◌∙◌, true, List, [], ◌∷◌,
  ◌++◌, length, arith,
}
use native.Mathlib.Nat.{zero-div}
use libdfu.Base.Bits.{bit_xor_digit, bit_xor-digit_at}
use libdfu.Base.Word.{sub32}
use libdfu.Stm32.Commands.{xor_bytes, erase_bytes, all_be16}

differ_self : (x : ℕ) → differ x x ≡ 0
differ_self zero = refl
differ_self (suc x) = differ_self x

xor_self_below : (bound x : ℕ) → x ≤ bound → bit_xor x x ≡ 0
xor_self_below zero zero h = refl
xor_self_below zero (suc x) h = absurd (omega arith)
xor_self_below (suc n) x h =
    bit_xor_digit x x
    ∙ ap₂ (λ a b. a * 2 + b) (xor_self_below n (x / 2) (omega arith)) (differ_self (x % 2))

xor_bytes-append : (c : ℕ) (xs ys : List ℕ) → xor_bytes c (xs ++ ys) ≡ xor_bytes (xor_bytes c xs) ys
unfolding xor_bytes
xor_bytes-append c [] ys = refl
xor_bytes-append c (x ∷ xs) ys = xor_bytes-append (bit_xor c x) xs ys

-- How many of the bytes have their bit `k` set.
abbrev pub ones : ℕ → List ℕ → ℕ
ones k [] = 0
ones k (b ∷ bytes) = b / 2 ^ k % 2 + ones k bytes

xor_bytes-digit :
    (k c : ℕ) (bytes : List ℕ) → xor_bytes c bytes / 2 ^ k % 2 ≡ (c / 2 ^ k % 2 + ones k bytes) % 2
unfolding xor_bytes
xor_bytes-digit k c [] = omega arith
xor_bytes-digit k c (b ∷ bytes) =
    let rest = xor_bytes-digit k (bit_xor c b) bytes in
    let first = bit_xor-digit_at c b k in omega (arith, rest, first)

pub xor_bytes-closed : (bytes : List ℕ) → xor_bytes 0 (bytes ++ (xor_bytes 0 bytes ∷ [])) ≡ 0
unfolding xor_bytes
xor_bytes-closed bytes =
    xor_bytes-append 0 bytes (xor_bytes 0 bytes ∷ [])
    ∙ xor_self_below (xor_bytes 0 bytes) (xor_bytes 0 bytes) (omega arith)

-- Bit `k` of the checksum of bytes, from 0 on, tells whether the number of the bytes that have bit `k`
-- set is odd; and the bytes followed by their checksum have the checksum 0.
pub xor_bytes-parity :
    (bytes : List ℕ)
    → ((k : ℕ) → xor_bytes 0 bytes / 2 ^ k % 2 ≡ ones k bytes % 2)
      × (xor_bytes 0 (bytes ++ (xor_bytes 0 bytes ∷ [])) ≡ 0)
xor_bytes-parity bytes = (parity, xor_bytes-closed bytes)
  where
    parity : (k : ℕ) → xor_bytes 0 bytes / 2 ^ k % 2 ≡ ones k bytes % 2
    parity k =
        let none_set : 0 / 2 ^ k ≡ 0 = zero-div (2 ^ k) in
        omega (arith, xor_bytes-digit k 0 bytes, none_set)

-- A receiver of half words, high byte first.
abbrev pub read_be16 : List ℕ → List ℕ
read_be16 [] = []
read_be16 (hi ∷ []) = []
read_be16 (hi ∷ lo ∷ bytes) = (hi * 256 + lo) ∷ read_be16 bytes

abbrev pub AllBelow : ℕ → List ℕ → Type 0
AllBelow n [] = Unit
AllBelow n (x ∷ xs) = (x < n) × AllBelow n xs

read_be16-all :
    (sectors : List ℕ) → AllBelow (2 ^ 16) sectors → read_be16 (all_be16 sectors) ≡ sectors
read_be16-all [] h = refl
read_be16-all (s ∷ sectors) h =
    let word : s / 256 % 256 * 256 + s % 256 ≡ s = omega (arith, h.0) in
    ap₂ (λ x xs. x ∷ xs) word (read_be16-all sectors h.1)

-- The bytes of an extended erase of one sector or more, all of them below 2^16 and fewer than 2^16 of them,
-- are, read back as half words, the number of the sectors less one and then the sectors.
pub read_be16-erase_bytes :
    (sectors : List ℕ)
    → AllBelow (2 ^ 16) sectors
    → 0 < length sectors
    → length sectors < 2 ^ 16
    → read_be16 (erase_bytes true sectors) ≡ (length sectors - 1) ∷ sectors
unfolding erase_bytes
read_be16-erase_bytes sectors h some_sector small =
    let less : sub32 (length sectors) 1 ≡ length sectors - 1 = omega arith in
    let number : sub32 (length sectors) 1 / 256 % 256 * 256 + sub32 (length sectors) 1 % 256
        ≡ length sectors - 1 =
      omega (arith, less) in
    ap₂ (λ x xs. x ∷ xs) number (read_be16-all sectors h)

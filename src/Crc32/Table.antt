-- ===== src/Crc32/Table.antt =====
-- The table of src/crc32.c against the polynomial.
use Prim.Native.Nat.{bit_xor}
use libdfu.Base.{
  ℕ, zero, suc, ◌+◌, ◌/◌, ◌%◌, ◌<◌, ◌≡◌, refl, ap, ◌∙◌, List, [], ◌∷◌, ◌==◌, if◌then◌else◌, get_or,
  arith,
}
use libdfu.Crc32.{crctable}

-- `n` steps of the division by the polynomial, lowest bit first.
unfoldable pub divide : ℕ → ℕ → ℕ
divide zero crc = crc
divide (suc n) crc = divide n (if crc % 2 == 1 then bit_xor (crc / 2) 3988292384 else crc / 2)

abbrev table_from : ℕ → ℕ → List ℕ
table_from zero i = []
table_from (suc n) i = divide 8 i ∷ table_from n (i + 1)

table_from-get_or : (n i k : ℕ) → k < n → get_or (table_from n i) k 0 ≡ divide 8 (i + k)
table_from-get_or zero i k h = absurd (omega arith)
table_from-get_or (suc n) i zero h = let same : i ≡ i + 0 = omega arith in ap (divide 8) same
table_from-get_or (suc n) i (suc k) h =
    let same : i + 1 + k ≡ i + suc k = omega arith in
    table_from-get_or n (i + 1) k (omega arith) ∙ ap (divide 8) same

crctable-eq : crctable ≡ table_from 256 0
unfolding crctable divide
crctable-eq = refl

-- Each of the 256 entries of the table is its index divided, for eight steps, by the polynomial of
-- CRC-32.
pub crctable-divides : (i : ℕ) → i < 256 → get_or crctable i 0 ≡ divide 8 i
crctable-divides i h =
    ap (λ l. get_or l i 0) crctable-eq
    ∙ table_from-get_or 256 0 i h
    ∙ ap (divide 8) (let same : 0 + i ≡ i = omega arith in same)

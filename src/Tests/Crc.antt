-- ===== src/Tests/Crc.antt =====
-- Inputs for the CRC.
use libdfu.Base.{◌≡◌, get_or, arith, refl, [], ◌∷◌}
use libdfu.Crc32.{crctable, crc32_init, crc32_iteration, crc32_done}
use libdfu.Crc32.Table.{divide, crctable-divides}

crctable-divides_example : get_or crctable 200 0 ≡ divide 8 200
crctable-divides_example = crctable-divides 200 (omega arith)

-- The check value of CRC-32, on "123456789".
check_value :
    crc32_done (crc32_iteration (49 ∷ 50 ∷ 51 ∷ 52 ∷ 53 ∷ 54 ∷ 55 ∷ 56 ∷ 57 ∷ []) crc32_init)
    ≡ 3421780262
unfolding crc32_iteration
check_value = refl

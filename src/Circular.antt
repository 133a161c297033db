-- ===== src/Circular.antt =====
-- The index arithmetic of the circular buffers, include/dfu-internal.h: `_count`, `_space`,
-- `_count_to_end` and `_space_to_end`. All of them work on `int`, so differences wrap.
pub mod Laws
pub mod Window
use libdfu.Base.{ℕ, ◌+◌, ltb, not, if◌then◌else◌}
use libdfu.Base.Word.{add32, sub32, slt32, mask}

unfoldable pub count : ℕ → ℕ → ℕ → ℕ
count head tail size = mask (sub32 head tail) size

unfoldable pub space : ℕ → ℕ → ℕ → ℕ
space head tail size = mask (sub32 tail (add32 head 1)) size

unfoldable pub count_to_end : ℕ → ℕ → ℕ → ℕ
count_to_end head tail size =
    let end = sub32 size tail in
    let n = mask (add32 head end) size in if slt32 n end then n else end

unfoldable pub space_to_end : ℕ → ℕ → ℕ → ℕ
space_to_end head tail size =
    let end = sub32 (sub32 size 1) head in
    let n = mask (add32 end tail) size in if not (slt32 end n) then n else add32 end 1

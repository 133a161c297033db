-- ===== src/Circular/Laws.antt =====
-- What the index arithmetic means: with a power of two for a size and indices inside the buffer,
-- the four functions are the lengths of the used and of the free stretch, whole and up to the end.
use libdfu.Base.{ℕ, ◌+◌, ◌-◌, ◌<◌, ◌≡◌, min, leb, if◌then◌else◌, arith}
use libdfu.Base.Word.{add32, sub32, IsSize, size_bounds, mask-sub32, mask-wrap}
use libdfu.Circular.{count, space, count_to_end, space_to_end}

module _ {size head tail : ℕ} (z : IsSize size) (h : head < size) (t : tail < size) where
  -- The bytes between the two indices, going round.
  pub count_lem : count head tail size ≡ (if leb tail head then head - tail else head + size - tail)
  unfolding count
  count_lem = mask-sub32 head tail z h (omega arith)

  space_flat :
      space head tail size
      ≡ (if leb (head + 1) tail then tail - (head + 1) else tail + size - (head + 1))
  unfolding space
  space_flat =
      let small = size_bounds z in
      let plain : add32 head 1 ≡ head + 1 = omega arith in
      rw plain (mask-sub32 tail (head + 1) z t (omega arith))

  -- One byte is never used: what is used and what is free make up the size less one.
  pub count-add-space : count head tail size + space head tail size + 1 ≡ size
  count-add-space = ground (arith, count_lem, space_flat)

  -- For a size that is a power of two, and a head and a tail below it, `_count_to_end` is the smaller of
  -- the number of bytes in use and of those up to the end of the buffer.
  pub count_to_end-eq-min : count_to_end head tail size ≡ min (count head tail size) (size - tail)
  unfolding count_to_end
  count_to_end-eq-min =
      let small = size_bounds z in
      let end : sub32 size tail ≡ size - tail = omega arith in
      let sum : add32 head (size - tail) ≡ head + size - tail = omega arith in
      let n = mask-wrap (head + size - tail) z (omega arith) in
      rw (end, sum) (ground (arith, n, count_lem))

  -- For a size that is a power of two, and a head and a tail below it, `_space_to_end` is the smaller of
  -- the number of free bytes and of those up to the end of the buffer.
  pub space_to_end-eq-min : space_to_end head tail size ≡ min (space head tail size) (size - head)
  unfolding space_to_end
  space_to_end-eq-min =
      let small = size_bounds z in
      let end : sub32 (sub32 size 1) head ≡ size - 1 - head = omega arith in
      let sum : add32 (size - 1 - head) tail ≡ size - 1 - head + tail = omega arith in
      let next : add32 (size - 1 - head) 1 ≡ size - head = omega arith in
      let n = mask-wrap (size - 1 - head + tail) z (omega arith) in
      rw (end, sum, next) (ground (arith, n, space_flat))

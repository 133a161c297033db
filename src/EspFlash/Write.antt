-- ===== src/EspFlash/Write.antt =====
-- Writes to the SPI flash at any address, src/file-container-esp8266.c: a double word that is written in
-- part is read, changed and written back.
pub mod Aligned
pub mod Slow
pub mod Loop
use libdfu.Base.{
  ℕ, zero, suc, ◌+◌, ◌-◌, Bool, true, false, not, ◌&&◌, Option, none, some, ◌==◌, ltb, leb, min,
  if◌then◌else◌,
}
use libdfu.Base.Word.{add32, sub32}
use libdfu.EspFlash.{Bytes, Ram, SpiFlash, tmpbuf_size, copy, from, align_prev, align_next}

abbrev is_some : Option Bytes → Bool
is_some none = false
is_some (some v) = true

module _ {S : Type 0} (flash : SpiFlash S) where
  pub write_back : S → ℕ → (Bytes → Bytes) → Option Bytes → Bool × S
  write_back s a change none = (false, s)
  write_back s a change (some v) = flash.write s a (change v) 4

  -- A double word is read, changed and written.
  unfoldable pub replace : S → ℕ → (Bytes → Bytes) → Bool × S
  unfolding write_back
  replace s a change = write_back s a change (flash.read s a 4)

  -- `_aligned_flash_write`
  unfoldable pub aligned_flash_write : S → ℕ → ℕ → ℕ → Bytes → Bool × S
  aligned_flash_write s dst src sz mem =
      let aligned_sz = align_prev sz in
      let (ok, s') = flash.write s dst (from mem src) aligned_sz in
      let last =
        replace s' (add32 dst aligned_sz)
          (λ v. copy v 0 (from mem (src + aligned_sz)) (sz - aligned_sz)) in
      if not ok then (false, s') else if aligned_sz == sz then (true, s') else last

  -- The first double word of `_equally_unaligned_flash_write`: it goes where the middle was written.
  pub rewrite_first : S → ℕ → ℕ → Bytes → Option Bytes → Bool × S
  rewrite_first s aligned_dst start_delta src none = (false, s)
  rewrite_first s aligned_dst start_delta src (some v) =
      flash.write s aligned_dst (copy v (4 - start_delta) src start_delta) 4

  -- `_equally_unaligned_flash_write`; the last double word is read and not written.
  unfoldable pub equally_unaligned_flash_write : S → ℕ → ℕ → ℕ → Bytes → Bool × S
  unfolding rewrite_first
  equally_unaligned_flash_write s dst src sz mem =
      let aligned_dst = align_next dst in
      let start_delta = sub32 aligned_dst dst in
      let aligned_sz = align_prev (sub32 sz start_delta) in
      let aligned_dst_end = sub32 (add32 aligned_dst aligned_sz) 1 in
      let end_delta = sub32 (sub32 (add32 dst sz) 1) aligned_dst_end in
      let (ok, s1) = flash.write s aligned_dst (from mem (align_next src)) aligned_sz in
      let (ok', s2) =
        rewrite_first s1 aligned_dst start_delta (from mem src)
          (flash.read s1 (sub32 aligned_dst 4) 4) in
      let last = flash.read s2 (add32 aligned_dst aligned_sz) 4 in
      if not ok
      then (false, s1)
      else if not ok'
      then (false, s2)
      else if end_delta == 0
      then (true, s2)
      else (is_some last, s2)

  -- The writes of `_slow_flash_write`, and what it returns. The temporary buffer holds nothing that is
  -- used later.
  unfoldable pub slow_parts : S → ℕ → ℕ → ℕ → ℕ → ℕ → ℕ → Bytes → Option ℕ × S
  slow_parts s dst src sz aligned_sz aligned_end end_delta mem =
      let aligned_dst = align_next dst in
      let start_delta = sub32 aligned_dst dst in
      let (ok, s1) = flash.write s aligned_dst (from mem (src + start_delta)) aligned_sz in
      let (ok_first, s_first) =
        replace s1 (align_prev dst) (λ v. copy v (4 - start_delta) (from mem src) start_delta) in
      let s2 = if start_delta == 0 then s1 else s_first in
      let (ok_last, s_last) =
        replace s2 (add32 aligned_end 1)
          (λ v. copy v 0 (from mem (src + aligned_sz + start_delta)) end_delta) in
      if not ok
      then (none, s1)
      else if not (start_delta == 0) && not ok_first
      then (none, s_first)
      else if end_delta == 0
      then (some sz, s2)
      else if ok_last
      then (some sz, s_last)
      else (none, s_last)

  -- `_slow_flash_write`, with the number of bytes written, or `none` for -1
  unfoldable pub slow_flash_write : S → ℕ → ℕ → ℕ → Bytes → Option ℕ × S
  slow_flash_write s dst src size mem =
      let sz = min size tmpbuf_size in
      let wanted = min tmpbuf_size (align_prev sz) in
      let wanted_end = sub32 (add32 (align_next dst) wanted) 1 in
      let end = sub32 (add32 dst sz) 1 in
      let beyond = ltb end wanted_end in
      let aligned_sz = if beyond then sub32 wanted 4 else wanted in
      let aligned_end = if beyond then sub32 wanted_end 4 else wanted_end in
      let end_delta = sub32 end aligned_end in
      let written = slow_parts s dst src sz aligned_sz aligned_end end_delta mem in
      if ltb end aligned_end then (none, s) else if leb 4 end_delta then (none, s) else written

  pub write_next : (ℕ → S → Option (Bool × S)) → ℕ → Option ℕ × S → Option (Bool × S)
  write_next loop done (none, s) = some (false, s)
  write_next loop done (some n, s) = loop (done + n) s

  -- The loop of `_flash_write`
  pub write_loop : ℕ → ℕ → ℕ → ℕ → ℕ → Bytes → S → Option (Bool × S)
  write_loop zero dst src sz done mem s = if ltb done sz then none else some (true, s)
  write_loop (suc n) dst src sz done mem s =
      let round =
        write_next (λ done' s'. write_loop n dst src sz done' mem s') done
          (slow_flash_write s (add32 dst done) (src + done) (sub32 sz done) mem) in
      if ltb done sz then round else some (true, s)

  -- `_flash_write`; `none` is for a loop that has not ended after a round for each byte.
  unfoldable pub flash_write : S → ℕ → ℕ → ℕ → Bytes → Option (Bool × S)
  unfolding write_loop write_next
  flash_write s dst src sz mem =
      let dst_delta = sub32 (align_next dst) dst in
      let src_delta = sub32 (align_next src) src in
      let slow = write_loop sz dst src sz 0 mem s in
      if src_delta == 0 && (dst_delta == 0)
      then some (aligned_flash_write s dst src sz mem)
      else if src_delta == dst_delta
      then some (equally_unaligned_flash_write s dst src sz mem)
      else slow

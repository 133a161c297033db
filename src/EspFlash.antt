-- ===== src/EspFlash.antt =====
-- Access to the SPI flash of the ESP8266 at any address, src/file-container-esp8266.c: the flash takes
-- addresses and sizes in double words of four bytes only. `S` is the state of the flash.
pub mod Read
pub mod Write
use libdfu.Base.{
  ℕ, zero, suc, ◌+◌, ◌-◌, ◌*◌, ◌/◌, Bool, true, false, ◌&&◌, Option, none, some, ◌==◌, ltb, leb,
  min, if◌then◌else◌,
}
use libdfu.Base.Word.{add32, sub32}

-- Bytes by address, or by their place in a buffer.
abbrev pub Bytes : Type 0
Bytes = ℕ → ℕ

-- `spi_flash_erase_sector`, `spi_flash_write` and `spi_flash_read` of the SDK. A read that fails is
-- `none`.
pub record SpiFlash (S : Type 0) : Type 0 where
  pub erase_sector : S → ℕ → Bool × S
  pub write : S → ℕ → Bytes → ℕ → Bool × S
  pub read : S → ℕ → ℕ → Option Bytes

-- The memory, and `flash_tmpbuf`.
pub record Ram : Type 0 where
  pub bytes : Bytes
  pub tmpbuf : Bytes

-- TMP_BUF_SIZE
abbrev pub tmpbuf_size : ℕ
tmpbuf_size = 512

-- `memcpy`
abbrev pub copy : Bytes → ℕ → Bytes → ℕ → Bytes
copy mem dst src n p = if leb dst p && ltb p (dst + n) then src (p - dst) else mem p

abbrev pub from : Bytes → ℕ → Bytes
from bytes k i = bytes (k + i)

-- `_align_next` and `_align_prev`, where `& ~3` leaves the multiple of 4 below.
abbrev pub align_prev : ℕ → ℕ
align_prev a = a / 4 * 4

abbrev pub align_next : ℕ → ℕ
align_next a = align_prev (add32 a 3)

-- After the read of `_slow_flash_read`; `offset` is `_src - aligned_src`.
pub slow_got : ℕ → ℕ → ℕ → ℕ → Ram → Option Bytes → Option ℕ × Ram
slow_got offset dst size aligned_sz m none = (none, m)
slow_got offset dst size aligned_sz m (some got) =
    let tmp = copy m.tmpbuf 0 got aligned_sz in
    let sz = min size (tmpbuf_size - offset) in
    (some sz, record m { tmpbuf = tmp; bytes = copy m.bytes dst (from tmp offset) sz })

pub read_last : ℕ → ℕ → Ram → Option Bytes → Bool × Ram
read_last dst n m none = (false, m)
read_last dst n m (some v) = (true, record m { bytes = copy m.bytes dst v n })

pub slow_next : (ℕ → Ram → Option (Bool × Ram)) → ℕ → Option ℕ × Ram → Option (Bool × Ram)
slow_next loop done (none, m) = some (false, m)
slow_next loop done (some n, m) = loop (done + n) m

module _ {S : Type 0} (flash : SpiFlash S) where
  -- `_slow_flash_read`, with the number of bytes read, or `none` for -1
  unfoldable pub slow_flash_read : S → ℕ → ℕ → ℕ → Ram → Option ℕ × Ram
  unfolding slow_got
  slow_flash_read s src dst sz m =
      let aligned_src = align_prev src in
      let aligned_end = sub32 (align_next (sub32 (add32 src sz) 1)) 1 in
      let aligned_sz = min tmpbuf_size (add32 (sub32 aligned_end aligned_src) 1) in
      slow_got (sub32 src aligned_src) dst sz aligned_sz m (flash.read s aligned_src aligned_sz)

  pub aligned_got : S → ℕ → ℕ → ℕ → Ram → Option Bytes → Bool × Ram
  aligned_got s src dst sz m none = (false, m)
  aligned_got s src dst sz m (some got) =
      let aligned_sz = align_prev sz in
      let m' = record m { bytes = copy m.bytes dst got aligned_sz } in
      let last =
        read_last (dst + aligned_sz) (sz - aligned_sz) m' (flash.read s (add32 src aligned_sz) 4) in
      if aligned_sz == sz then (true, m') else last

  -- `_aligned_flash_read`
  unfoldable pub aligned_flash_read : S → ℕ → ℕ → ℕ → Ram → Bool × Ram
  unfolding aligned_got read_last
  aligned_flash_read s src dst sz m = aligned_got s src dst sz m (flash.read s src (align_prev sz))

  -- What is left of `_equally_unaligned_flash_read` once the first double word is read as well.
  pub first_got : S → ℕ → ℕ → ℕ → ℕ → ℕ → ℕ → Ram → Option Bytes → Bool × Ram
  first_got s dst aligned_dst aligned_src aligned_sz start_delta end_delta m none = (false, m)
  first_got s dst aligned_dst aligned_src aligned_sz start_delta end_delta m (some v) =
      let m' = record m { bytes = copy m.bytes dst (from v (4 - start_delta)) start_delta } in
      let last =
        read_last (aligned_dst + aligned_sz) end_delta m'
          (flash.read s (add32 aligned_src aligned_sz) 4) in
      if end_delta == 0 then (true, m') else last

  pub middle_got : S → ℕ → ℕ → ℕ → ℕ → ℕ → ℕ → Ram → Option Bytes → Bool × Ram
  middle_got s dst aligned_dst aligned_src aligned_sz start_delta end_delta m none = (false, m)
  middle_got s dst aligned_dst aligned_src aligned_sz start_delta end_delta m (some got) =
      first_got s dst aligned_dst aligned_src aligned_sz start_delta end_delta
        (record m { bytes = copy m.bytes aligned_dst got aligned_sz })
        (flash.read s (sub32 aligned_src 4) 4)

  -- `_equally_unaligned_flash_read`
  unfoldable pub equally_unaligned_flash_read : S → ℕ → ℕ → ℕ → Ram → Bool × Ram
  unfolding middle_got first_got read_last
  equally_unaligned_flash_read s src dst sz m =
      let aligned_src = align_next src in
      let start_delta = sub32 aligned_src src in
      let aligned_sz = align_prev (sub32 sz start_delta) in
      let aligned_src_end = sub32 (add32 aligned_src aligned_sz) 1 in
      let end_delta = sub32 (sub32 (add32 src sz) 1) aligned_src_end in
      middle_got s dst (align_next dst) aligned_src aligned_sz start_delta end_delta m
        (flash.read s aligned_src aligned_sz)

  -- The loop of `_flash_read`
  pub slow_loop : ℕ → S → ℕ → ℕ → ℕ → ℕ → Ram → Option (Bool × Ram)
  slow_loop zero s src dst sz done m = if ltb done sz then none else some (true, m)
  slow_loop (suc n) s src dst sz done m =
      let round =
        slow_next (slow_loop n s src dst sz) done
          (slow_flash_read s (add32 src done) (dst + done) (sub32 sz done) m) in
      if ltb done sz then round else some (true, m)

  -- `_flash_read`; `none` is for a loop that has not ended after a round for each byte.
  unfoldable pub flash_read : S → ℕ → ℕ → ℕ → Ram → Option (Bool × Ram)
  unfolding slow_loop slow_next
  flash_read s src dst sz m =
      let src_delta = sub32 (align_next src) src in
      let dst_delta = sub32 (align_next dst) dst in
      let slow = slow_loop sz s src dst sz 0 m in
      if dst_delta == 0 && (src_delta == 0)
      then some (aligned_flash_read s src dst sz m)
      else if dst_delta == src_delta
      then some (equally_unaligned_flash_read s src dst sz m)
      else slow

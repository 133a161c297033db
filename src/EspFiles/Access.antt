-- ===== src/EspFiles/Access.antt =====
-- Reading, writing and closing a file in the SPI flash, src/file-container-esp8266.c.
use libdfu.Base.{
  ℕ, zero, suc, ◌+◌, ◌-◌, ◌/◌, ◌^◌, Bool, true, false, not, Option, none, some, ◌==◌, ltb, leb, min,
  if◌then◌else◌, and_then,
}
use libdfu.Base.Word.{add32, sub32}
use libdfu.EspFlash.{SpiFlash}
use libdfu.Timeouts.{update}
use libdfu.EspFiles.{
  Store, sectdatasize, flash_index, index_to_addr, index_to_data_addr, read_at, write_at,
  read_file_header, write_file_header, read32, store32, header_size, at_start_offset, at_data_size,
}

module _ {S : Type 0} (flash : SpiFlash S) (h : ℕ) where
  -- The loop of `spi_flash_file_close`
  abbrev pub described : Store S → ℕ → ℕ → Store S
  described w offs size = record w {
    ram = record w.ram {
      bytes = store32 (store32 w.ram.bytes (h + at_start_offset) offs) (h + at_data_size) size;
    };
  }

  unfoldable pub close_from : ℕ → ℕ → ℕ → ℕ → Store S → Option (Bool × Store S)
  close_from zero f s offs w = none
  close_from (suc n) f s offs w =
      let size = min (w.written f) w.sectsize in
      let rest = and_then (read_file_header flash h w s) (λ w1.
        and_then (write_file_header flash h (described w1 offs size) s) (λ w2.
          let next = close_from n f (w.links.next s) (add32 offs size) w2 in
          if leb (w.written f) (add32 offs size) then some (true, w2) else next)) in
      if s == f then some (true, w) else rest

  -- `spi_flash_file_close` of the file of a descriptor, if it has one
  unfoldable pub file_close : Store S → Option ℕ → Option (Bool × Store S)
  unfolding close_from
  file_close w none = some (false, w)
  file_close w (some f) =
      let closed = close_from (w.nsectors + 1) f (w.links.next f) 0 w in
      if w.written f == 0 then some (true, w) else closed

  -- The test of the header for a read: the size of its data must have been stored.
  abbrev pub check_header : Store S → ℕ → Option (Bool × Store S)
  check_header w fsi =
      and_then (read_at flash h w (index_to_addr w fsi) h header_size)
        (λ w'. some (not (read32 w'.ram.bytes (h + at_data_size) == 2 ^ 32 - 1), w'))

  -- The transfer of `n` bytes from or to place `done` of a buffer. A pointer of 0 is NULL.
  unfoldable pub transfer : ℕ → ℕ → ℕ → ℕ → ℕ → ℕ → Store S → Option (Bool × Store S)
  transfer wrbuf rdbuf done fsi offset n w =
      let data_addr = add32 (index_to_data_addr w fsi) offset in
      let reading =
        and_then (check_header w fsi) (λ w'. read_at flash h w' data_addr (add32 rdbuf done) n) in
      let writing = write_at flash h w data_addr (add32 wrbuf done) n in
      if rdbuf == 0 then writing else reading

  abbrev pub moved :
      (ℕ → Store S → Option (Option ℕ × Store S))
      → ℕ
      → ℕ
      → Option (Bool × Store S)
      → Option (Option ℕ × Store S)
  moved next sz done none = none
  moved next sz done (some (false, w)) = some (none, w)
  moved next sz done (some (true, w)) =
      let rest = next done w in if leb sz done then some (some done, w) else rest

  -- The loop of `_spi_flash_file_wrrd` from sector `s` on, which is number `i` of the file.
  unfoldable pub wrrd_from :
      ℕ → ℕ → ℕ → ℕ → ℕ → ℕ → ℕ → ℕ → ℕ → ℕ → Store S → Option (Option ℕ × Store S)
  wrrd_from zero f fileptr wrbuf rdbuf sz s offs done i w = none
  wrrd_from (suc n) f fileptr wrbuf rdbuf sz s offs done i w =
      let room = sectdatasize w in
      let skip =
        wrrd_from n f fileptr wrbuf rdbuf sz (w.links.next s) (add32 offs room) done (i + 1) w in
      let offset = if i == fileptr / room then sub32 fileptr offs else 0 in
      let count = min (sub32 sz done) (sub32 room offset) in
      let round =
        moved
          (λ done' w'.
            wrrd_from n f fileptr wrbuf rdbuf sz (w.links.next s) (add32 offs room) done' (i + 1)
              w')
          sz (add32 done count) (transfer wrbuf rdbuf done (flash_index w s) offset count w) in
      if s == f then some (some done, w) else if ltb i (fileptr / room) then skip else round

  abbrev pub counted : ℕ → ℕ → Option (Option ℕ × Store S) → Option (Option ℕ × Store S)
  counted f wrbuf none = none
  counted f wrbuf (some (none, w)) = some (none, w)
  counted f wrbuf (some (some done, w)) =
      if wrbuf == 0
      then some (some done, w)
      else some (some done, record w { written = update w.written f (add32 (w.written f) done) })

  -- `_spi_flash_file_wrrd`, with the number of bytes, or `none` for -1
  unfoldable pub file_wrrd : Store S → ℕ → ℕ → ℕ → ℕ → ℕ → Option (Option ℕ × Store S)
  unfolding wrrd_from
  file_wrrd w f fileptr wrbuf rdbuf sz =
      let result =
        counted f wrbuf
          (wrrd_from (w.nsectors + 1) f fileptr wrbuf rdbuf sz (w.links.next f) 0 0 0 w) in
      if rdbuf == wrbuf then some (none, w) else result

  -- `spi_flash_file_read` and `spi_flash_file_write`
  unfoldable pub file_read : Store S → ℕ → ℕ → ℕ → ℕ → Option (Option ℕ × Store S)
  file_read w f fileptr buf sz =
      let n = min sz (sub32 (w.written f) fileptr) in
      let read = file_wrrd w f fileptr 0 buf n in if n == 0 then some (some 0, w) else read

  unfoldable pub file_write : Store S → ℕ → ℕ → ℕ → ℕ → Option (Option ℕ × Store S)
  file_write w f fileptr buf sz =
      let result = file_wrrd w f fileptr buf 0 sz in
      if ltb fileptr (w.written f)
      then some (none, w)
      else if ltb (w.max_size f) (add32 (w.written f) sz)
      then some (none, w)
      else result

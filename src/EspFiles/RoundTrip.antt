-- ===== src/EspFiles/RoundTrip.antt =====
-- A file that is written, closed and read again.
use libdfu.Base.{
  ℕ, suc, ◌+◌, ◌-◌, ◌/◌, ◌%◌, ◌^◌, ◌≤◌, ◌<◌, ◌≡◌, ◌≢◌, refl, ap, ◌∙◌, true, false, some, ◌==◌, ltb,
  leb, min, arith,
}
use libdfu.Base.Word.{add32, sub32}
use libdfu.Timeouts.{update}
use libdfu.EspFlash.{Bytes, Ram, SpiFlash, from}
use libdfu.EspFlash.Write.Aligned.{IsFlash, merged, merged-within, merged-before, merged-after}
use libdfu.EspFlash.Read.{copy-within}
use libdfu.EspFiles.{Store, flash_index, store32, read32, word_bytes}
use libdfu.EspFiles.Access.{
  transfer, file_wrrd, file_read, file_write, file_close, close_from, described,
}
use libdfu.EspFiles.Transfers.{
  IsFresh, first_of, addr_of, header_word, write_at_as, read_at_as, read_file_header_as,
  write_file_header_as, wrrd_one,
}

module _ {S : Type 0} {flash : SpiFlash S} {content : S → Bytes} {merge : ℕ → ℕ → ℕ} {size : ℕ}
    (ok : IsFlash flash content merge size) (blank_merges : (x : ℕ) → merge 255 x ≡ x) (h : ℕ)
    (h_aligned : h % 4 ≡ 0) (h_room : h + 80 ≤ 2 ^ 32) (w : Store S) (f buf sz : ℕ)
    (fresh : IsFresh content size w f) (some_bytes : 3 ≤ sz) (fits : sz + 76 ≤ w.sectsize)
    (enough : sz ≤ w.max_size f) where
  abbrev addr : ℕ
  addr = addr_of w f

  abbrev s : ℕ
  s = first_of w f

  abbrev taken : Bytes
  taken = from w.ram.bytes buf

  -- The file written, in the flash `s1`.
  abbrev pub after_write : S → Store S
  after_write s1 = record w { device = s1; written = update w.written f (add32 (w.written f) sz) }

  data_place : add32 (add32 addr 76) 0 ≡ addr + 76
  data_place = omega (arith, fresh.inside, ok.small)

  off_list : (s == f) ≡ false
  off_list = ground (arith, fresh.apart)

  pub file_write-wrote :
      buf ≢ 0
      → buf + 4 ≤ 2 ^ 32
      → (buf % 4 ≢ 0 → sz % 512 ≢ 0 → 4 ≤ sz % 512)
      → (s1 : S) × (file_write flash h w f 0 buf sz ≡ some (some sz, after_write s1))
        × ((p : ℕ) → content s1 p ≡ merged merge (content w.device) (addr + 76) taken sz p)
  unfolding file_write file_wrrd transfer
  file_write-wrote given room tail =
      let (s1, e, all) =
        write_at_as ok w (addr + 76) buf sz h (omega (arith, fresh.aligned))
          (omega (arith, fresh.inside)) (omega (arith, fresh.inside)) room tail in
      let same : add32 buf 0 ≡ buf = omega arith in
      let moves : transfer flash h buf 0 0 (flash_index w s) 0 sz w
          ≡ some (true, record w { device = s1 }) =
        rw (data_place, same) e in
      let round =
        wrrd_one flash h w.nsectors f s buf 0 sz true w (record w { device = s1 }) off_list fits
          (omega (arith, fresh.inside, ok.small)) moves in
      let no_overwrite : ltb 0 (w.written f) ≡ false = ground (arith, fresh.unwritten) in
      let small : ltb (w.max_size f) (add32 (w.written f) sz) ≡ false =
        ground (arith, fresh.unwritten, fresh.inside, ok.small) in
      let writing : (0 == buf) ≡ false = ground (arith, given) in
      let count : (buf == 0) ≡ false = ground (arith, given) in
      let fuel : w.nsectors + 1 ≡ suc w.nsectors = omega arith in
      (s1, rw (no_overwrite, small, writing, fuel, round, count) refl, all)

  -- The file closed, with the memory `m`, in the flash `s2`.
  abbrev pub after_close : S → Ram → S → Store S
  after_close s1 m s2 = record (after_write s1) { ram = m; device = s2 }

  written_now : (s1 : S) → (after_write s1).written f ≡ sz
  written_now s1 =
      let here : (f == f) ≡ true = ground arith in
      let sum : add32 (w.written f) sz ≡ sz =
        omega (arith, fresh.unwritten, fresh.inside, ok.small) in
      rw (here, sum) refl

  -- What the flash holds once the file is closed: the size of its data, and the data.
  abbrev Stored : S → Type 0
  Stored s2 =
      ((j : ℕ) → j < 4 → content s2 (addr + 68 + j) ≡ word_bytes sz j)
      × ((i : ℕ) → i < sz → content s2 (addr + 76 + i) ≡ taken i)

  header-Stored :
      (s1 s2 : S) (m : Bytes)
      → ((p : ℕ) → content s1 p ≡ merged merge (content w.device) (addr + 76) taken sz p)
      → ((p : ℕ)
          → content s2 p ≡ merged merge (content s1) addr (from (store32 m (h + 68) sz) h) 76 p)
      → Stored s2
  header-Stored s1 s2 m body header = (size_there, data_there)
    where
      size_there : (j : ℕ) → j < 4 → content s2 (addr + 68 + j) ≡ word_bytes sz j
      size_there j lt =
          let old : content s1 (addr + 68 + j) ≡ 255 =
            body (addr + 68 + j)
            ∙ merged-before ok (content w.device) taken (addr + 76) sz (addr + 68 + j) (omega arith)
            ∙ fresh.blank (addr + 68 + j) (omega arith) (omega arith) in
          let index : addr + 68 + j - addr ≡ 68 + j = omega arith in
          let place : h + (68 + j) - (h + 68) ≡ j = omega arith in
          header (addr + 68 + j)
          ∙ merged-within ok (content s1) (from (store32 m (h + 68) sz) h) addr 76 (addr + 68 + j)
              (omega arith) (omega arith)
          ∙ rw (old, index)
              (blank_merges (store32 m (h + 68) sz (h + (68 + j)))
                ∙ copy-within m (word_bytes sz) (h + 68) 4 (h + (68 + j)) (omega arith)
                    (omega arith)
                ∙ ap (word_bytes sz) place)

      data_there : (i : ℕ) → i < sz → content s2 (addr + 76 + i) ≡ taken i
      data_there i lt =
          let old : content w.device (addr + 76 + i) ≡ 255 =
            fresh.blank (addr + 76 + i) (omega arith) (omega arith) in
          let index : addr + 76 + i - (addr + 76) ≡ i = omega arith in
          header (addr + 76 + i)
          ∙ merged-after ok (content s1) (from (store32 m (h + 68) sz) h) addr 76 (addr + 76 + i)
              (omega arith)
          ∙ body (addr + 76 + i)
          ∙ merged-within ok (content w.device) taken (addr + 76) sz (addr + 76 + i) (omega arith)
              (omega arith)
          ∙ rw (old, index) (blank_merges (taken i))

  file_close-Stored :
      (s1 : S)
      → ((p : ℕ) → content s1 p ≡ merged merge (content w.device) (addr + 76) taken sz p)
      → (m : Ram) × (s2 : S) × (file_close flash h (after_write s1) (some f)
          ≡ some (true, after_close s1 m s2))
        × Stored s2
  unfolding file_close close_from
  file_close-Stored s1 body =
      let inside : addr + 76 ≤ size = omega (arith, fresh.inside) in
      let (m, e, got) =
        read_file_header_as ok (after_write s1) s h fresh.aligned inside h_aligned (omega arith) in
      let ready = described flash h (record (after_write s1) { ram = m }) 0 sz in
      let (s2, e2, header) =
        write_file_header_as ok ready s h fresh.aligned inside h_aligned (omega arith) in
      let some_written : (sz == 0) ≡ false = ground arith in
      let one : min sz w.sectsize ≡ sz = omega arith in
      let end : add32 0 sz ≡ sz = omega (arith, fresh.inside, ok.small) in
      let all : leb sz sz ≡ true = ground arith in
      let fuel : w.nsectors + 1 ≡ suc w.nsectors = omega arith in
      (
        ready.ram,
        s2,
        rw (written_now s1, some_written, fuel, off_list, written_now s1, one, e, e2, end, all)
            refl,
        header-Stored s1 s2 (store32 m.bytes (h + 64) 0) body header,
      )

  size_read : (s2 : S) → Stored s2 → read32 (content s2) (addr + 68) ≡ sz
  size_read s2 stored =
      let bound : sz < 2 ^ 32 = omega (arith, fits, fresh.inside, ok.small) in
      let start : addr + 68 ≡ addr + 68 + 0 = omega arith in
      let b0 : content s2 (addr + 68) ≡ sz % 256 =
        ap (content s2) start ∙ stored.0 0 (omega arith) ∙ omega arith in
      let b1 : content s2 (addr + 68 + 1) ≡ sz / 256 % 256 = stored.0 1 (omega arith) in
      let b2 : content s2 (addr + 68 + 2) ≡ sz / 65536 % 256 = stored.0 2 (omega arith) in
      let b3 : content s2 (addr + 68 + 3) ≡ sz / 16777216 % 256 = stored.0 3 (omega arith) in
      rw (b0, b1, b2, b3) (omega (arith, bound))

  file_read-read :
      (s1 s2 : S) (m : Ram) (out : ℕ)
      → Stored s2
      → out ≢ 0
      → out + 4 ≤ 2 ^ 32
      → (out % 4 ≢ 0 → sz % 4 ≢ 1)
      → (w3 : Store S) × (file_read flash h (after_close s1 m s2) f 0 out sz ≡ some (some sz, w3))
        × ((i : ℕ) → i < sz → w3.ram.bytes (out + i) ≡ taken i)
  unfolding file_read file_wrrd transfer
  file_read-read s1 s2 m out stored given room tail =
      let w2 = after_close s1 m s2 in
      let (m3, e3, header) =
        read_at_as ok w2 addr h 76 h (omega arith) fresh.aligned (omega (arith, fresh.inside))
          (omega arith) (λ ne. absurd (ne h_aligned)) in
      let w3 = record w2 { ram = m3 } in
      let (m4, e4, got) =
        read_at_as ok w3 (addr + 76) out sz h some_bytes (omega (arith, fresh.aligned))
          (omega (arith, fresh.inside)) room tail in
      let stored_size =
        header_word m3.bytes m.bytes (content s2) addr h header ∙ size_read s2 stored in
      let is_stored : (read32 m3.bytes (h + 68) == 2 ^ 32 - 1) ≡ false =
        ground (arith, stored_size, fits, fresh.inside, ok.small) in
      let same : add32 out 0 ≡ out = omega arith in
      let w4 = record w3 { ram = m4 } in
      let reading : (out == 0) ≡ false = ground (arith, given) in
      let moves : transfer flash h 0 out 0 (flash_index w2 s) 0 sz w2 ≡ some (true, w4) =
        rw (reading, e3, is_stored, data_place, same, e4) refl in
      let round =
        wrrd_one flash h w.nsectors f s 0 out sz true w2 w4 off_list fits
          (omega (arith, fresh.inside, ok.small)) moves in
      let all : min sz (sub32 sz 0) ≡ sz = omega (arith, fits, fresh.inside, ok.small) in
      let some_left : (sz == 0) ≡ false = ground arith in
      let fuel : w.nsectors + 1 ≡ suc w.nsectors = omega arith in
      (
        w4,
        rw (written_now s1, all, some_left, reading, fuel, round) refl,
        λ i lt.
            let index : out + i - out ≡ i = omega arith in
            got (out + i)
            ∙ copy-within m3.bytes (from (content s2) (addr + 76)) out sz (out + i) (omega arith)
                (omega arith)
            ∙ ap (λ k. content s2 (addr + 76 + k)) index
            ∙ stored.1 i lt,
      )

  -- Bytes that fit behind the header of the first sector of a file, whose sector is erased but for the
  -- name: `spi_flash_file_write` writes them all, `spi_flash_file_close` succeeds and
  -- `spi_flash_file_read` then reads them all, and what it reads are the bytes that were given. There
  -- are three bytes at least; a buffer that is not at a multiple of four leaves nothing, or four bytes
  -- at least, behind whole temporary buffers for the write, and does not end with the first byte of a
  -- double word for the read.
  pub file_read-file_write :
      (out : ℕ)
      → buf ≢ 0
      → buf + 4 ≤ 2 ^ 32
      → (buf % 4 ≢ 0 → sz % 512 ≢ 0 → 4 ≤ sz % 512)
      → out ≢ 0
      → out + 4 ≤ 2 ^ 32
      → (out % 4 ≢ 0 → sz % 4 ≢ 1)
      → (w1 : Store S) × (file_write flash h w f 0 buf sz ≡ some (some sz, w1))
        × (w2 : Store S) × (file_close flash h w1 (some f) ≡ some (true, w2))
        × (w3 : Store S) × (file_read flash h w2 f 0 out sz ≡ some (some sz, w3))
        × ((i : ℕ) → i < sz → w3.ram.bytes (out + i) ≡ w.ram.bytes (buf + i))
  file_read-file_write out given room tail given' room' tail' =
      let (s1, wrote, body) = file_write-wrote given room tail in
      let (m, s2, closed, stored) = file_close-Stored s1 body in
      let (w3, read, all) = file_read-read s1 s2 m out stored given' room' tail' in
      (after_write s1, wrote, after_close s1 m s2, closed, w3, read, all)

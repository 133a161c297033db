-- ===== src/EspFiles.antt =====
-- The files in the SPI flash of the ESP8266, src/file-container-esp8266.c, on the reads and writes of
-- `EspFlash` and the lists of `SectorList`. `S` is the state of the flash.
pub mod Access
pub mod Container
pub mod Transfers
pub mod RoundTrip
pub mod Unclosed
use libdfu.Base.{
  ℕ, zero, suc, ◌+◌, ◌-◌, ◌*◌, ◌/◌, ◌%◌, ◌^◌, Bool, true, false, Option, none, some, List, [], ◌∷◌,
  ◌==◌, ltb, leb, min, if◌then◌else◌, get_or, length, and_then,
}
use libdfu.Base.Word.{add32, sub32}
use libdfu.EspFlash.{Bytes, Ram, SpiFlash, copy, from, flash_read}
use libdfu.EspFlash.Write.{flash_write}
use libdfu.SectorList.{Links}

-- The heads of the lists of the eight files are the numbers from 1 on, 9 is that of the free sectors, and
-- sector `k` is 10 + k.
abbrev pub file_heads : List ℕ
file_heads = 1 ∷ 2 ∷ 3 ∷ 4 ∷ 5 ∷ 6 ∷ 7 ∷ 8 ∷ []

abbrev pub free_head : ℕ
free_head = 9

abbrev pub first_sector : ℕ
first_sector = 10

-- `struct spiflash_container_data`, the `written` and `max_size` of each `struct spi_flash_file_data`, the
-- memory and the flash.
pub record Store (S : Type 0) : Type 0 where
  pub flash_first_sector : ℕ
  pub nsectors : ℕ
  pub sectsize : ℕ
  pub links : Links
  pub written : ℕ → ℕ
  pub max_size : ℕ → ℕ
  pub ram : Ram
  pub device : S

-- `sizeof(union spi_flash_sector_header)`, and where its `start_offset` and `data_size` are.
abbrev pub header_size : ℕ
header_size = 76

abbrev pub at_start_offset : ℕ
at_start_offset = 64

abbrev pub at_data_size : ℕ
at_data_size = 68

-- A word in memory, low byte first.
abbrev pub read32 : Bytes → ℕ → ℕ
read32 m p = m p + m (p + 1) * 256 + m (p + 2) * 65536 + m (p + 3) * 16777216

abbrev pub word_bytes : ℕ → Bytes
word_bytes v i = v / 256 ^ i % 256

abbrev pub store32 : Bytes → ℕ → ℕ → Bytes
store32 m p v = copy m p (word_bytes v) 4

-- `strncpy` of a name of characters other than 0 over bytes of 255
abbrev pub header_of : List ℕ → Bytes
header_of name i = if ltb i 63 then get_or name i 0 else 255

-- Whether `strcmp` is 0
pub same_string : Bytes → List ℕ → Bool
same_string m [] = m 0 == 0
same_string m (c ∷ name) =
    let rest = same_string (from m 1) name in if m 0 == c then rest else false

module _ {S : Type 0} where
  abbrev pub sectdatasize : Store S → ℕ
  sectdatasize w = sub32 w.sectsize header_size

  abbrev pub flash_index : Store S → ℕ → ℕ
  flash_index w s = add32 (s - first_sector) w.flash_first_sector

  abbrev pub index_to_addr : Store S → ℕ → ℕ
  index_to_addr w fsi = fsi * w.sectsize % 2 ^ 32

  abbrev pub index_to_data_addr : Store S → ℕ → ℕ
  index_to_data_addr w fsi = add32 (index_to_addr w fsi) header_size

  abbrev with_bytes : Store S → Bytes → Store S
  with_bytes w bytes = record w { ram = record w.ram { bytes = bytes } }

  abbrev pub got_ram : Store S → Option (Bool × Ram) → Option (Bool × Store S)
  got_ram w none = none
  got_ram w (some (ok, m)) = some (ok, record w { ram = m })

  abbrev pub put_device : Store S → Option (Bool × S) → Option (Bool × Store S)
  put_device w none = none
  put_device w (some (ok, s)) = some (ok, record w { device = s })

-- `h` is where a function keeps its header.
module _ {S : Type 0} (flash : SpiFlash S) (h : ℕ) where
  abbrev pub read_at : Store S → ℕ → ℕ → ℕ → Option (Bool × Store S)
  read_at w src dst sz = got_ram w (flash_read flash w.device src dst sz w.ram)

  abbrev pub write_at : Store S → ℕ → ℕ → ℕ → Option (Bool × Store S)
  write_at w dst src sz = put_device w (flash_write flash w.device dst src sz w.ram.bytes)

  -- `_read_file_header` and `_write_file_header`
  unfoldable pub read_file_header : Store S → ℕ → Option (Bool × Store S)
  read_file_header w s =
      let a = index_to_addr w (flash_index w s) in
      let read = read_at w a h header_size in if a == 2 ^ 32 - 1 then some (false, w) else read

  unfoldable pub write_file_header : Store S → ℕ → Option (Bool × Store S)
  write_file_header w s =
      let a = index_to_addr w (flash_index w s) in
      let written = write_at w a h header_size in
      if a == 2 ^ 32 - 1 then some (false, w) else written

  -- `_file_name_cmp`: whether it is 0
  unfoldable pub file_name_cmp : Store S → ℕ → List ℕ → Option (Bool × Store S)
  unfolding same_string
  file_name_cmp w f name =
      and_then (read_file_header w (w.links.next f))
        (λ w'. some (same_string (from w'.ram.bytes h) name, w'))

  -- The loops over the sectors of a file in `sectors_allocate_on_flash` and in
  -- `sector_deallocate_on_flash`, from sector `s` on; `none` is for a list of more than `n` sectors.
  pub allocate_from : ℕ → ℕ → ℕ → Store S → Option (Bool × Store S)
  allocate_from zero f s w = none
  allocate_from (suc n) f s w =
      let fsi = flash_index w s in
      let (ok, erased) = flash.erase_sector w.device fsi in
      let w1 = record w { device = erased } in
      let rest =
        and_then (write_at w1 (index_to_addr w fsi) h header_size)
          (allocate_from n f (w.links.next s)) in
      if s == f then some (true, w) else if ok then rest else some (false, w1)

  pub deallocate_from : ℕ → ℕ → ℕ → Store S → Option (Bool × Store S)
  deallocate_from zero f s w = none
  deallocate_from (suc n) f s w =
      let rest =
        and_then (write_at w (index_to_addr w (flash_index w s)) h header_size)
          (deallocate_from n f (w.links.next s)) in
      if s == f then some (true, w) else rest

  unfoldable pub sectors_allocate_on_flash : Store S → ℕ → List ℕ → Option (Bool × Store S)
  unfolding allocate_from
  sectors_allocate_on_flash w f name =
      allocate_from (w.nsectors + 1) f (w.links.next f)
        (with_bytes w (copy w.ram.bytes h (header_of name) header_size))

  unfoldable pub sector_deallocate_on_flash : Store S → ℕ → Option (Bool × Store S)
  unfolding deallocate_from
  sector_deallocate_on_flash w f =
      deallocate_from (w.nsectors + 1) f (w.links.next f)
        (with_bytes w (copy w.ram.bytes h (λ i. 0) header_size))

-- ===== src/Stm32.antt =====
-- The flash of an STM32, src/target/stm32-usart.c, include/stm32-device.h and
-- src/target/stm32-device-f469.c: memory areas, their sectors, and which of them have been erased.
-- `long` has 64 bits, an address 32.
pub mod Sectors
pub mod Erased
pub mod Commands
pub mod Target
pub mod Safe
pub mod Checksum
pub mod Frames
use Prim.Native.Nat.{bit_and, bit_or}
use libdfu.Base.{
  ℕ, zero, suc, ◌+◌, ◌-◌, ◌*◌, ◌/◌, ◌%◌, ◌^◌, Bool, true, false, not, ◌&&◌, Option, none, some,
  List, [], ◌∷◌, ◌==◌, ltb, leb, if◌then◌else◌, get_or, set, length, replicate, ◌++◌,
}
use libdfu.Base.Word.{add32, sub32}

-- enum memory_type
pub data MemoryType : Type 0 where
  flash : MemoryType
  ram : MemoryType
  otp : MemoryType
  options : MemoryType
  invalid : MemoryType

-- `struct stm32_memory_area`, with the sizes of its sectors and the words of its bitmask. There is no
-- bitmask for a null pointer.
pub record MemoryArea : Type 0 where
  pub type : MemoryType
  pub start : ℕ
  pub size : ℕ
  pub sectors : List ℕ
  pub sectors_bitmask : Option (List ℕ)
  pub nsectors : ℕ
  pub sectors_offset : ℕ

-- sizeof(unsigned long)
abbrev pub long_size : ℕ
long_size = 8

-- MAX_NSECTORS_ERASE
abbrev pub max_nsectors_erase : ℕ
max_nsectors_erase = 2

-- A mask is followed by other objects in memory, which the source reads and writes for a bit beyond the
-- mask. They are not modelled: here a bit beyond the mask is 0, and setting it changes nothing.
unfoldable pub test_bit : ℕ → List ℕ → Bool
test_bit bitno l = not (bit_and (get_or l (bitno / long_size) 0) (2 ^ (bitno % long_size)) == 0)

unfoldable pub set_bit : ℕ → List ℕ → List ℕ
set_bit bitno l =
    set l (bitno / long_size) (bit_or (get_or l (bitno / long_size) 0) (2 ^ (bitno % long_size)))

-- The loop of `find_area` over the areas of the boot mode from number `i` on.
unfoldable pub find_area : List MemoryArea → ℕ → ℕ → ℕ → Option (ℕ × MemoryArea)
find_area [] i addr size = none
find_area (ma ∷ areas) i addr size =
    let rest = find_area areas (i + 1) addr size in
    if leb ma.start addr && leb (addr + size) (ma.start + ma.size) then some (i, ma) else rest

-- The start sector and the number of sectors once the start is known; none before.
abbrev pub sector_found : ℕ → ℕ → ℕ → ℕ → Option (ℕ × ℕ) → Option (ℕ × ℕ)
sector_found addr a s i none = if leb a addr && ltb addr (a + s) then some (i, 1) else none
sector_found addr a s i (some found) = some found

pub sectors_next : (Option (ℕ × ℕ) → Option (ℕ × ℕ)) → ℕ → ℕ → ℕ → Option (ℕ × ℕ) → Option (ℕ × ℕ)
sectors_next rest end a s none = rest none
sectors_next rest end a s (some (start, n)) =
    let later = rest (some (start, n + 1)) in if ltb end (a + s) then some (start, n) else later

-- The loop of `map_chunk_address`; `i` counts the sectors before, `a` is the address of the next. The
-- source does not look for the end of the sectors, here none is for a chunk that passes it.
pub sectors_from : ℕ → ℕ → List ℕ → ℕ → ℕ → Option (ℕ × ℕ) → Option (ℕ × ℕ)
sectors_from addr end [] i a found = none
sectors_from addr end (s ∷ sectors) i a found =
    sectors_next (sectors_from addr end sectors (i + 1) (add32 a s)) end a s
      (sector_found addr a s i found)

abbrev pub is_flash : MemoryType → Bool
is_flash flash = true
is_flash ram = false
is_flash otp = false
is_flash options = false
is_flash invalid = false

-- `*start_sector` and `*nsectors` in a flash area; the first counts from `sectors_offset`.
unfoldable pub map_sectors : MemoryArea → ℕ → ℕ → Option (ℕ × ℕ)
unfolding sectors_from sectors_next
map_sectors area addr size =
    sectors_from addr (sub32 (addr + size) 1) area.sectors area.sectors_offset area.start none

-- The sectors among `n` from index `i` on whose bit is not set, as sector numbers.
unfoldable pub not_erased : ℕ → ℕ → ℕ → List ℕ → List ℕ
not_erased zero i offset mask = []
not_erased (suc n) i offset mask =
    let rest = not_erased n (i + 1) offset mask in
    if test_bit i mask then rest else (i + offset) ∷ rest

abbrev pub bitmask : MemoryArea → List ℕ
bitmask a = words a.sectors_bitmask
  where
    words : Option (List ℕ) → List ℕ
    words none = []
    words (some l) = l

-- `erased` for a chunk that is mapped to sectors of a flash area: the sectors to be erased, of which
-- there are none where it returns 1; `none` is for -1, too many sectors.
unfoldable pub to_erase : MemoryArea → ℕ × ℕ → Option (List ℕ)
to_erase a (start, nsec) =
    if ltb max_nsectors_erase nsec
    then none
    else some (not_erased nsec (start - a.sectors_offset) a.sectors_offset (bitmask a))

-- What `stm32_usart_must_erase` finds out about a chunk.
pub data EraseNeed : Type 0 where
  not_mapped : EraseNeed
  not_flash : EraseNeed
  too_many : EraseNeed
  all_erased : EraseNeed
  needed : ℕ → List ℕ → EraseNeed

pub need_of_list : ℕ → Option (List ℕ) → EraseNeed
need_of_list i none = too_many
need_of_list i (some []) = all_erased
need_of_list i (some (s ∷ sectors)) = needed i (s ∷ sectors)

pub need_of_sectors : ℕ → MemoryArea → Option (ℕ × ℕ) → EraseNeed
need_of_sectors i a none = not_mapped
need_of_sectors i a (some sectors) = need_of_list i (to_erase a sectors)

pub need_of_area : ℕ → ℕ → Option (ℕ × MemoryArea) → EraseNeed
need_of_area addr l none = not_mapped
need_of_area addr l (some (i, a)) =
    let need = need_of_sectors i a (map_sectors a addr l) in
    if is_flash a.type then need else not_flash

-- `map_chunk_address` and `erased` as `stm32_usart_must_erase` calls them; a needed erase has the number
-- of the area and the sectors.
unfoldable pub erase_need : List MemoryArea → ℕ → ℕ → EraseNeed
unfolding need_of_area need_of_sectors need_of_list
erase_need areas addr l = need_of_area addr l (find_area areas 0 addr l)

-- The loop of `mark_erased`
unfoldable pub set_bits : List ℕ → ℕ → List ℕ → List ℕ
set_bits [] offset mask = mask
set_bits (s ∷ sectors) offset mask = set_bits sectors offset (set_bit (s - offset) mask)

unfoldable pub mark_erased : MemoryArea → List ℕ → MemoryArea
mark_erased a to_be_erased = record a {
  sectors_bitmask = some (set_bits to_be_erased a.sectors_offset (bitmask a));
}

-- What `stm32_usart_fini` clears of a bitmask.
abbrev pub words_for : ℕ → ℕ
words_for nsectors = nsectors / (long_size * 8) + (if nsectors % (long_size * 8) == 0 then 0 else 1)

abbrev pub clear_words : ℕ → List ℕ → List ℕ
clear_words zero l = l
clear_words (suc n) [] = []
clear_words (suc n) (w ∷ l) = 0 ∷ clear_words n l

abbrev clear_mask : ℕ → Option (List ℕ) → Option (List ℕ)
clear_mask n none = none
clear_mask n (some l) = if n == 0 then some l else some (clear_words (words_for n) l)

unfoldable pub fini_areas : List MemoryArea → List MemoryArea
fini_areas [] = []
fini_areas (a ∷ areas) =
    record a { sectors_bitmask = clear_mask a.nsectors a.sectors_bitmask } ∷ fini_areas areas

-- The sectors of each bank of src/target/stm32-device-f469.c
abbrev pub bank_sectors : List ℕ
bank_sectors = replicate 4 (16 * 1024) ++ ((64 * 1024) ∷ []) ++ replicate 7 (128 * 1024)

abbrev pub bank : ℕ → ℕ → MemoryArea
bank start offset = record {
  type = flash;
  start = start;
  size = 1024 * 1024;
  sectors = bank_sectors;
  sectors_bitmask = some (0 ∷ []);
  nsectors = 12;
  sectors_offset = offset;
}

-- `stm32f469bi_device_data` in its one boot mode
abbrev pub f469_areas : List MemoryArea
f469_areas =
    bank 134217728 0
    ∷ bank (134217728 + 1024 * 1024) 12
    ∷ record {
      type = ram;
      start = 536870912;
      size = 320 * 1024;
      sectors = [];
      sectors_bitmask = none;
      nsectors = 0;
      sectors_offset = 0;
    }
    ∷ []

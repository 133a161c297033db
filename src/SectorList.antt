-- ===== src/SectorList.antt =====
-- The sectors of the flash, src/file-container-esp8266.c: circular, doubly linked lists of the free
-- sectors and of the sectors of each file. A sector and the head of a list are named by numbers.
pub mod Chains
pub mod Moves
pub mod Allocate
pub mod Release
use libdfu.Base.{
  ℕ, zero, suc, ◌+◌, ◌/◌, ◌%◌, Bool, true, false, not, ◌&&◌, Option, none, some, ◌==◌, ltb,
  if◌then◌else◌,
}
use libdfu.Timeouts.{update}

-- `prev` and `next` of each `struct spi_flash_sector`
pub record Links : Type 0 where
  pub prev : ℕ → ℕ
  pub next : ℕ → ℕ

unfoldable pub sector_add : Links → ℕ → ℕ → Links
sector_add l prev sector =
    let next = l.next prev in
    record {
      next = update (update l.next sector next) prev sector;
      prev = update (update l.prev sector prev) next sector;
    }

unfoldable pub sector_del : Links → ℕ → Links
sector_del l sector =
    let next = l.next sector in
    let prev = l.prev sector in
    record { next = update l.next prev next; prev = update l.prev next prev }

unfoldable pub sector_list_init : Links → ℕ → Links
sector_list_init l sector = record {
  next = update l.next sector sector;
  prev = update l.prev sector sector;
}

abbrev pub sectors_list_empty : Links → ℕ → Bool
sectors_list_empty l sector = l.next sector == sector && (l.prev sector == sector)

-- `for_each_sector` of `sectors_list_count` from `s` on, for `fuel` sectors at most.
pub count_from : ℕ → Links → ℕ → ℕ → ℕ
count_from zero l head s = 0
count_from (suc fuel) l head s =
    let rest = count_from fuel l head (l.next s) in if s == head then 0 else suc rest

unfoldable pub sectors_list_count : ℕ → Links → ℕ → ℕ
unfolding count_from
sectors_list_count fuel l head = count_from fuel l head (l.next head)

-- `num` of `_get_sectors`, for sectors of `data_size` bytes
abbrev pub sectors_for : ℕ → ℕ → ℕ
sectors_for max_size data_size = max_size / data_size + (if max_size % data_size == 0 then 0 else 1)

-- The loop of `_get_sectors`, which moves the first free sector to the new list.
unfoldable pub move_sectors : ℕ → Links → ℕ → ℕ → Links
move_sectors zero l free out = l
move_sectors (suc n) l free out =
    let s = l.next free in move_sectors n (sector_add (sector_del l s) out s) free out

-- `_get_sectors` of the `total` sectors that there are; `none` is for -1.
unfoldable pub get_sectors : ℕ → Links → ℕ → ℕ → ℕ → Option ℕ × Links
get_sectors total l free out num =
    let l' = sector_list_init l out in
    if ltb (sectors_list_count total l' free) num
    then (none, l')
    else (some num, move_sectors num l' free out)

-- The list of the free sectors that `spi_flash_fc_init` builds, of the sectors from `i` on.
unfoldable pub add_sectors : ℕ → ℕ → Links → ℕ → Links
add_sectors zero i l free = l
add_sectors (suc n) i l free = add_sectors n (i + 1) (sector_add l free i) free

-- The loop of `spi_flash_fc_remove`, from sector `s` with the one behind it.
unfoldable pub free_sectors : ℕ → Links → ℕ → ℕ → ℕ → ℕ → Links
free_sectors zero l head free s tmp = l
free_sectors (suc fuel) l head free s tmp =
    let l' = sector_add (sector_del l s) free s in
    let rest = free_sectors fuel l' head free tmp (l'.next tmp) in if s == head then l else rest

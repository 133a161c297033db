-- ===== src/EspFiles/Container.antt =====
-- The container of the files in the SPI flash, src/file-container-esp8266.c: set-up, opening, removing.
use libdfu.Base.{
  ℕ, ◌+◌, Bool, true, false, Option, none, some, List, [], ◌∷◌, ◌==◌, ltb, leb, ◌&&◌, if◌then◌else◌,
}
use libdfu.EspFlash.{SpiFlash}
use libdfu.Timeouts.{update}
use libdfu.SectorList.{
  Links, sector_list_init, sectors_list_empty, sectors_list_count, sectors_for, get_sectors,
  add_sectors, free_sectors,
}
use libdfu.EspFiles.{
  Store, sectdatasize, file_name_cmp, sectors_allocate_on_flash, sector_deallocate_on_flash,
  file_heads, free_head, first_sector,
}

-- `struct dfu_fc_esp8226_args`
pub record Args : Type 0 where
  pub flash_first_sector : ℕ
  pub nsectors : ℕ
  pub sectsize : ℕ

abbrev init_heads : List ℕ → Links → Links
init_heads [] l = l
init_heads (f ∷ fs) l = init_heads fs (sector_list_init l f)

module _ {S : Type 0} where
  abbrev configured : Store S → Option Args → Store S
  configured w none = w
  configured w (some args) = record w {
    flash_first_sector = args.flash_first_sector;
    nsectors = args.nsectors;
    sectsize = args.sectsize;
  }

  -- `spi_flash_fc_init`
  unfoldable pub fc_init : Store S → Option Args → Store S
  fc_init w args =
      let w' = configured (record w { links = init_heads file_heads w.links }) args in
      record w' {
        links =
            add_sectors w'.nsectors first_sector (sector_list_init w'.links free_head) free_head;
      }

  -- `spi_flash_fc_fini`, with the sectors set to 0 first
  unfoldable pub fc_fini : Store S → Store S
  fc_fini w =
      let clear : (ℕ → ℕ) → ℕ → ℕ =
        λ f p. if leb first_sector p && ltb p (first_sector + w.nsectors) then 0 else f p in
      fc_init (record w { links = record { prev = clear w.links.prev; next = clear w.links.next } })
        none

  -- `_get_file_data`, from these files on
  unfoldable pub get_file_data : List ℕ → Store S → Option ℕ × Store S
  get_file_data [] w = (none, w)
  get_file_data (f ∷ fs) w =
      let rest = get_file_data fs w in
      if sectors_list_count w.nsectors w.links f == 0
      then (some f, record w { written = update w.written f 0 })
      else rest

-- A result that may not come, whatever its value.
abbrev after : {M A : Type 0} → Option (Bool × M) → (M → A) → Option A
after none next = none
after (some (ok, m)) next = some (next m)

module _ {S : Type 0} (flash : SpiFlash S) (h : ℕ) where
  abbrev allocated : ℕ → List ℕ → ℕ → Option ℕ × Links → Store S → Option (Option ℕ × Store S)
  allocated f name max_size (none, l) w = some (none, record w { links = l })
  allocated f name max_size (some num, l) w =
      after
        (sectors_allocate_on_flash flash h
          (record w { links = l; max_size = update w.max_size f max_size }) f name)
        (λ w'. (some f, w'))

  -- `_new_file`: whether the sectors could be erased and marked does not matter then.
  abbrev new_in : List ℕ → ℕ → Option ℕ × Store S → Option (Option ℕ × Store S)
  new_in name max_size (none, w) = some (none, w)
  new_in name max_size (some f, w) =
      allocated f name max_size
        (get_sectors w.nsectors w.links free_head f (sectors_for max_size (sectdatasize w))) w

  unfoldable pub new_file : Store S → List ℕ → ℕ → Option (Option ℕ × Store S)
  new_file w name max_size = new_in name max_size (get_file_data file_heads w)

  abbrev compared :
      ℕ
      → (Store S → Option (Option ℕ × Store S))
      → Option (Bool × Store S)
      → Option (Option ℕ × Store S)
  compared f next none = none
  compared f next (some (true, w)) = some (some f, w)
  compared f next (some (false, w)) = next w

  -- `_find_file`, among these files
  unfoldable pub find_file : List ℕ → List ℕ → Store S → Option (Option ℕ × Store S)
  find_file [] name w = some (none, w)
  find_file (f ∷ fs) name w =
      let skip = find_file fs name w in
      let found = compared f (find_file fs name) (file_name_cmp flash h w f name) in
      if sectors_list_empty w.links f then skip else found

  -- `spi_flash_fc_open`, with the file for the descriptor
  abbrev opened_file : List ℕ → Bool → ℕ → Option (Option ℕ × Store S) → Option (Option ℕ × Store S)
  opened_file name create max_size none = none
  opened_file name create max_size (some (some f, w)) = some (some f, w)
  opened_file name create max_size (some (none, w)) =
      let new = new_file w name max_size in if create then new else some (none, w)

  unfoldable pub fc_open : Store S → List ℕ → Bool → ℕ → Option (Option ℕ × Store S)
  fc_open w name create max_size = opened_file name create max_size (find_file file_heads name w)

  -- `spi_flash_fc_remove`: whether the headers could be cleared does not matter then.
  abbrev removed_file : Option (Option ℕ × Store S) → Option (Bool × Store S)
  removed_file none = none
  removed_file (some (none, w)) = some (false, w)
  removed_file (some (some f, w)) = after (sector_deallocate_on_flash flash h w f) (λ w'.
      let s = w'.links.next f in
      (
        true,
        record w' {
          links = free_sectors (w'.nsectors + 1) w'.links f free_head s (w'.links.next s);
        },
      ))

  unfoldable pub fc_remove : Store S → List ℕ → Option (Bool × Store S)
  fc_remove w name = removed_file (find_file file_heads name w)

-- ===== src/FileTable/Slots.antt =====
-- `dfu_file_open` never takes the place of a file that is open.
use mathlib.Core.Option.{some-injective, some-ne-none}
use mathlib.Core.Bool.{true≢false}
use libdfu.Base.{
  ℕ, suc, ◌+◌, ◌-◌, ◌≤◌, ◌≡◌, ◌≢◌, refl, sym, ap, ◌∙◌, Bool, true, false, Option, none, some, List,
  [], ◌∷◌, get_or, get_or-set_ne, arith, Bool-cases, inl, inr,
}
use libdfu.Interface.{has}
use libdfu.FileTable.{
  Table, SimpleFile, FileOps, ContainerOps, no_file, file_at, put_file, find_free, opened,
  open_slot, open_with, file_open,
}

-- A free slot is one without a path.
find_free-free :
    {S : Type 0}
    → (files : List (SimpleFile S)) (i fd : ℕ) → find_free files i ≡ some fd
    → (i ≤ fd) × (has (get_or files (fd - i) no_file).path ≡ false)
unfolding find_free
find_free-free [] i fd e = absurd (some-ne-none fd (sym e))
find_free-free (f ∷ files) i fd e = elim (Bool-cases (has f.path)) [
  | inl used ↦
      let rest = find_free-free files (i + 1) fd (rw used at e) in
      let index : fd - i ≡ suc (fd - (i + 1)) = omega (arith, rest.0) in
      (omega (arith, rest.0), ap (λ k. has (get_or (f ∷ files) k no_file).path) index ∙ rest.1)
  | inr free ↦
      let same : i ≡ fd = some-injective _ _ (rw free at e) in
      let first : fd - i ≡ 0 = omega (arith, same) in
      (omega (arith, same), ap (λ k. has (get_or (f ∷ files) k no_file).path) first ∙ free)
]

module _ {S : Type 0} (t : Table S) (path : ℕ) (create : Bool) (max_size : ℕ) (fd : ℕ)
    (in_use : has (file_at t fd).path ≡ true) where
  put_file-other :
      (slot : ℕ) (f : SimpleFile S) (s : S)
      → slot ≢ fd
      → file_at (put_file t slot f s) fd ≡ file_at t fd
  put_file-other slot f s ne = get_or-set_ne t.files slot fd f no_file ne

  opened-other :
      (slot : ℕ) (r : Option (FileOps S) × S)
      → slot ≢ fd
      → file_at (opened t slot path r).1 fd ≡ file_at t fd
  unfolding opened
  opened-other slot (none, s) ne = put_file-other slot _ s ne
  opened-other slot (some ops, s) ne = put_file-other slot _ s ne

  open_slot-other :
      (op : S → ℕ → ℕ → Bool → ℕ → Option (FileOps S) × S) (o : Option ℕ)
      → find_free t.files 0 ≡ o
      → file_at (open_slot t path create max_size op o).1 fd ≡ file_at t fd
  unfolding open_slot
  open_slot-other op none e = refl
  open_slot-other op (some slot) e =
      let free = find_free-free t.files 0 slot e in
      let plain : slot - 0 ≡ slot = omega arith in
      let no_path : has (file_at t slot).path ≡ false =
        ap (λ k. has (get_or t.files k no_file).path) (sym plain) ∙ free.1 in
      opened-other slot (op t.container slot path create max_size)
        (λ same. true≢false (sym in_use ∙ ap (λ k. has (file_at t k).path) (sym same) ∙ no_path))

  open_with-other :
      (op : Option (S → ℕ → ℕ → Bool → ℕ → Option (FileOps S) × S))
      → file_at (open_with t path create max_size op).1 fd ≡ file_at t fd
  unfolding open_with
  open_with-other none = refl
  open_with-other (some op) = open_slot-other op (find_free t.files 0) refl

  -- A file of the table that is open is not changed when another is opened, whether or not that
  -- succeeds, for any container.
  pub file_open-keeps :
      (c : ContainerOps S) → file_at (file_open c t path create max_size).1 fd ≡ file_at t fd
  unfolding file_open
  file_open-keeps c = open_with-other c.open_file

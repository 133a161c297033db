-- ===== src/FileTable.antt =====
-- The table of open files, src/file-container.c, over the operations of a file container. `S` is the
-- state of the container and of its files.
pub mod Slots
use libdfu.Base.{
  ℕ, zero, suc, ◌+◌, Bool, true, false, not, ◌&&◌, Option, none, some, List, [], ◌∷◌, ltb,
  if◌then◌else◌, length, get_or, set,
}
use libdfu.Interface.{has}

-- `struct dfu_simple_file_ops`. An operation has the number of the file and its file pointer; `none` and
-- false are for a negative result.
pub record FileOps (S : Type 0) : Type 0 where
  pub close : Option (S → ℕ → Bool × S)
  pub read : Option (S → ℕ → ℕ → ℕ → Option (List ℕ) × S)
  pub write : Option (S → ℕ → ℕ → List ℕ → Option ℕ × S)
  pub seek : Option (S → ℕ → ℕ → Bool × S)

-- `struct dfu_simple_file`
pub record SimpleFile (S : Type 0) : Type 0 where
  pub path : Option ℕ
  pub fileptr : ℕ
  pub ops : Option (FileOps S)

-- `struct dfu_file_container_ops`; `open_file` sets the operations of the file.
pub record ContainerOps (S : Type 0) : Type 0 where
  pub open_file : Option (S → ℕ → ℕ → Bool → ℕ → Option (FileOps S) × S)
  pub remove_file : Option (S → ℕ → Bool × S)

-- MAX_DFU_FILES
abbrev pub max_files : ℕ
max_files = 8

-- The array `files` and what it works on.
pub record Table (S : Type 0) : Type 0 where
  pub files : List (SimpleFile S)
  pub container : S

-- A value, a negative result, and the use of a null pointer.
pub data Reply (A : Type 0) : Type 0 where
  replied : A → Reply A
  refused : Reply A
  null_pointer : Reply A

module _ {S : Type 0} where
  abbrev pub no_file : SimpleFile S
  no_file = record { path = none; fileptr = 0; ops = none }

  abbrev pub file_at : Table S → ℕ → SimpleFile S
  file_at t fd = get_or t.files fd no_file

  abbrev pub put_file : Table S → ℕ → SimpleFile S → S → Table S
  put_file t fd f s = record { files = set t.files fd f; container = s }

  -- The loop of `__find_free_file_slot`
  unfoldable pub find_free : List (SimpleFile S) → ℕ → Option ℕ
  find_free [] i = none
  find_free (f ∷ files) i =
      let rest = find_free files (i + 1) in if has f.path then rest else some i

  pub opened : Table S → ℕ → ℕ → Option (FileOps S) × S → Reply ℕ × Table S
  opened t fd path (none, s) = (refused, put_file t fd (record (file_at t fd) { path = none }) s)
  opened t fd path (some ops, s) =
      (replied fd, put_file t fd (record { path = some path; fileptr = 0; ops = some ops }) s)

  pub open_slot :
      Table S
      → ℕ
      → Bool
      → ℕ
      → (S → ℕ → ℕ → Bool → ℕ → Option (FileOps S) × S)
      → Option ℕ
      → Reply ℕ × Table S
  open_slot t path create max_size op none = (refused, t)
  open_slot t path create max_size op (some fd) =
      opened t fd path (op t.container fd path create max_size)

  pub open_with :
      Table S
      → ℕ
      → Bool
      → ℕ
      → Option (S → ℕ → ℕ → Bool → ℕ → Option (FileOps S) × S)
      → Reply ℕ × Table S
  open_with t path create max_size none = (refused, t)
  open_with t path create max_size (some op) =
      open_slot t path create max_size op (find_free t.files 0)

  -- `dfu_file_open` with a container
  unfoldable pub file_open : ContainerOps S → Table S → ℕ → Bool → ℕ → Reply ℕ × Table S
  unfolding open_with open_slot opened
  file_open c t path create max_size = open_with t path create max_size c.open_file

  pub closed : Table S → ℕ → Option (S → ℕ → Bool × S) → Reply (Unit {0}) × Table S
  closed t fd none = (replied tt, put_file t fd (record (file_at t fd) { path = none }) t.container)
  closed t fd (some op) =
      let (ok, s) = op t.container fd in
      if ok
      then (replied tt, put_file t fd (record (file_at t fd) { path = none }) s)
      else (refused, record t { container = s })

  pub close_of : Table S → ℕ → Option (FileOps S) → Reply (Unit {0}) × Table S
  close_of t fd none = (null_pointer, t)
  close_of t fd (some ops) = closed t fd ops.close

  -- `dfu_file_close`
  unfoldable pub file_close : Table S → ℕ → Reply (Unit {0}) × Table S
  unfolding close_of closed
  file_close t fd =
      let closing = close_of t fd (file_at t fd).ops in
      if ltb fd max_files then closing else (refused, t)

  -- The file pointer moves on by what was read or written.
  abbrev pub advanced : Table S → ℕ → ℕ → S → Table S
  advanced t fd n s =
      put_file t fd (record (file_at t fd) { fileptr = (file_at t fd).fileptr + n }) s

  pub got : Table S → ℕ → Option (List ℕ) × S → Reply (List ℕ) × Table S
  got t fd (none, s) = (refused, record t { container = s })
  got t fd (some bytes, s) = (replied bytes, advanced t fd (length bytes) s)

  pub read_with :
      Table S → ℕ → ℕ → Option (S → ℕ → ℕ → ℕ → Option (List ℕ) × S) → Reply (List ℕ) × Table S
  read_with t fd sz none = (refused, t)
  read_with t fd sz (some op) = got t fd (op t.container fd (file_at t fd).fileptr sz)

  pub read_of : Table S → ℕ → ℕ → Option (FileOps S) → Reply (List ℕ) × Table S
  read_of t fd sz none = (null_pointer, t)
  read_of t fd sz (some ops) = read_with t fd sz ops.read

  -- `dfu_file_read`
  unfoldable pub file_read : Table S → ℕ → ℕ → Reply (List ℕ) × Table S
  unfolding read_of read_with got
  file_read t fd sz =
      let reading = read_of t fd sz (file_at t fd).ops in
      if ltb fd max_files then reading else (refused, t)

  pub put : Table S → ℕ → Option ℕ × S → Reply ℕ × Table S
  put t fd (none, s) = (refused, record t { container = s })
  put t fd (some n, s) = (replied n, advanced t fd n s)

  pub write_with :
      Table S → ℕ → List ℕ → Option (S → ℕ → ℕ → List ℕ → Option ℕ × S) → Reply ℕ × Table S
  write_with t fd buf none = (null_pointer, t)
  write_with t fd buf (some op) = put t fd (op t.container fd (file_at t fd).fileptr buf)

  pub write_of : Table S → ℕ → List ℕ → Option (FileOps S) → Reply ℕ × Table S
  write_of t fd buf none = (null_pointer, t)
  write_of t fd buf (some ops) =
      let writing = write_with t fd buf ops.write in if has ops.read then writing else (refused, t)

  -- `dfu_file_write`, which asks whether there is a `read`
  unfoldable pub file_write : Table S → ℕ → List ℕ → Reply ℕ × Table S
  unfolding write_of write_with put
  file_write t fd buf =
      let writing = write_of t fd buf (file_at t fd).ops in
      if ltb fd max_files then writing else (refused, t)

  pub sought : Table S → ℕ → ℕ → Option (S → ℕ → ℕ → Bool × S) → Reply (Unit {0}) × Table S
  sought t fd fileptr none =
      (replied tt, put_file t fd (record (file_at t fd) { fileptr = fileptr }) t.container)
  sought t fd fileptr (some op) =
      let (ok, s) = op t.container fd fileptr in
      if ok
      then (replied tt, put_file t fd (record (file_at t fd) { fileptr = fileptr }) s)
      else (refused, record t { container = s })

  pub seek_of : Table S → ℕ → ℕ → Option (FileOps S) → Reply (Unit {0}) × Table S
  seek_of t fd fileptr none = (null_pointer, t)
  seek_of t fd fileptr (some ops) = sought t fd fileptr ops.seek

  -- `dfu_file_seek`
  unfoldable pub file_seek : Table S → ℕ → ℕ → Reply (Unit {0}) × Table S
  unfolding seek_of sought
  file_seek t fd fileptr =
      let seeking = seek_of t fd fileptr (file_at t fd).ops in
      if ltb fd max_files then seeking else (refused, t)

  pub removed : Table S → ℕ → Option (S → ℕ → Bool × S) → Reply (Unit {0}) × Table S
  removed t path none = (refused, t)
  removed t path (some op) =
      let (ok, s) = op t.container path in
      if ok then (replied tt, record t { container = s }) else (refused, record t { container = s })

  -- `dfu_file_remove` with a container
  unfoldable pub file_remove : ContainerOps S → Table S → ℕ → Reply (Unit {0}) × Table S
  unfolding removed
  file_remove c t path = removed t path c.remove_file

-- ===== src/Tests/FileTable.antt =====
-- A table with one file that is open, on a container that keeps one content.
use libdfu.Base.{ℕ, ◌+◌, ◌≡◌, refl, ◌∷◌, [], List, Option, true, none, some, take, drop, replicate}
use libdfu.FileTable.{Table, FileOps, ContainerOps, no_file, file_at, file_open}
use libdfu.FileTable.Slots.{file_open-keeps}

abbrev content : List ℕ
content = 10 ∷ 20 ∷ 30 ∷ 40 ∷ 50 ∷ []

abbrev read_content : ℕ → ℕ → ℕ → ℕ → Option (List ℕ) × ℕ
read_content s fd fileptr sz = (some (take sz (drop fileptr content)), s)

abbrev content_ops : FileOps ℕ
content_ops = record { close = none; read = some read_content; write = none; seek = none }

abbrev one_open : Table ℕ
one_open = record {
  files = record { path = some 77; fileptr = 1; ops = some content_ops } ∷ replicate 7 no_file;
  container = 0;
}

abbrev container : ContainerOps ℕ
container = record {
  open_file = some (λ s fd path create max_size. (some content_ops, s + 1));
  remove_file = none;
}

file_open-keeps_example :
    file_at (file_open container one_open 88 true 100).1 0 ≡ file_at one_open 0
file_open-keeps_example = file_open-keeps one_open 88 true 100 0 refl container

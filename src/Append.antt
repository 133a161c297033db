-- ===== src/Append.antt =====
-- `_bf_append_data` and `dfu_binary_file_append_buffer`, src/binary-file.c: bytes that come in are
-- copied behind `head`, in one piece or in two.
pub mod Copy
pub mod Refine
use libdfu.Base.{ℕ, ◌+◌, ◌-◌, min, true, List, ◌==◌, ltb, if◌then◌else◌, length, take, drop}
use libdfu.Base.Word.{add32, mask}
use libdfu.BinaryFile.{BinaryFile, buf_size, bf_space, bf_space_to_end}
use libdfu.Circular.Window.{blit}

-- memcpy (&ptr[bf->head], src, sz), and the new head
abbrev pub copy_in : BinaryFile → List ℕ → BinaryFile
copy_in bf src = record bf {
  buf = blit bf.buf bf.head src;
  head = mask (add32 bf.head (length src)) buf_size;
}

-- label `end`
abbrev pub appended : BinaryFile → ℕ → BinaryFile
appended bf tot = record bf { tot_appended = add32 bf.tot_appended tot }

-- What is left after the first copy goes to the start of the buffer.
pub append_rest : BinaryFile → ℕ → List ℕ → ℕ × BinaryFile
append_rest bf tot rest =
    let sz = min (bf_space bf) (length rest) in
    (tot + sz, appended (copy_in bf (take sz rest)) (tot + sz))

-- The list is the `buf_sz` bytes at `buf`.
unfoldable pub append_data : BinaryFile → List ℕ → ℕ × BinaryFile
unfolding append_rest
append_data bf src =
    if length src == 0
    then (0, record bf { written = true })
    else if ltb (bf_space bf) (length src)
    then (0, appended bf 0)
    else (let sz = min (bf_space_to_end bf) (length src) in
        let bf' = copy_in bf (take sz src) in
        if sz == 0
        then (sz, appended bf 0)
        else if length src - sz == 0
        then (sz, appended bf' sz)
        else append_rest bf' sz (drop sz src))

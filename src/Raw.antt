-- ===== src/Raw.antt =====
-- The raw binary format, src/binary-format-bin.c: the receive buffer is copied to the decoded buffer.
pub mod Copies
use libdfu.Base.{
  ℕ, ◌+◌, ◌-◌, ◌%◌, ◌^◌, min, Bool, true, Option, none, some, List, [], ◌++◌, ◌==◌, if◌then◌else◌,
  take, drop, length,
}
use libdfu.Base.Word.{add32, mask}
use libdfu.BinaryFile.{BinaryFile, bf_count, bf_count_to_end, bf_dec_space, bf_dec_space_to_end}
use libdfu.Circular.Window.{blit}

-- Any file is accepted.
pub binary_probe : BinaryFile → Bool × BinaryFile
binary_probe bf = (true, record bf { format_data = some 0 })

-- memcpy (dst, &ptr[bf->tail], sz), and the new tail
abbrev pub copy_out : BinaryFile → ℕ → List ℕ × BinaryFile
copy_out bf sz =
    (take sz (drop bf.tail bf.buf), record bf { tail = mask (add32 bf.tail sz) bf.max_size })

-- `_subcopy` with the bytes that it copies, at most `out_sz`
unfoldable pub subcopy : BinaryFile → ℕ → List ℕ × BinaryFile
subcopy bf out_sz =
    let sz = min out_sz (bf_count_to_end bf) in
    let (head, bf1) = copy_out bf sz in
    let (rest, bf2) = copy_out bf1 (min (out_sz - sz) (bf_count bf1)) in
    if sz == 0 then ([], bf) else if sz == out_sz then (head, bf1) else (head ++ rest, bf2)

-- The copied bytes go to the decoded buffer.
abbrev pub put_decoded : BinaryFile → List ℕ × BinaryFile → BinaryFile
put_decoded bf (bytes, bf') = record bf' {
  decoded_buf = blit bf'.decoded_buf bf.decoded_head bytes;
  decoded_head = mask (add32 bf.decoded_head (length bytes)) bf.decoded_size;
}

-- Label `end`: the length and the address; `none` is for a null `format_data`.
pub decode_end : BinaryFile → ℕ → Option ℕ → Option (ℕ × ℕ × BinaryFile)
decode_end bf tot none = none
decode_end bf tot (some curr_addr) =
    some (tot, curr_addr, record bf { format_data = some (add32 curr_addr tot) })

unfoldable pub binary_decode_chunk : BinaryFile → Option (ℕ × ℕ × BinaryFile)
unfolding decode_end
binary_decode_chunk bf =
    let copied = subcopy bf (bf_dec_space_to_end bf) in
    let bf1 = put_decoded bf copied in
    let copied_more = subcopy bf1 (bf_dec_space bf1) in
    let bf2 = put_decoded bf1 copied_more in
    let tot = length copied.0 in
    if bf_dec_space_to_end bf == 0
    then some (0, 0, bf)
    else if bf_dec_space bf1 == 0
    then decode_end bf1 tot bf1.format_data
    else decode_end bf2 (tot + length copied_more.0) bf2.format_data

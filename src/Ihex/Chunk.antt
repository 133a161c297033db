-- ===== src/Ihex/Chunk.antt =====
-- `_decode_data_line` and `ihex_decode_chunk`, src/binary-format-ihex.c.
pub mod Shorter
pub mod Total
use Prim.Native.Nat.{bit_and, bit_or}
use libdfu.Base.{
  ℕ, zero, suc, ◌+◌, ◌*◌, ◌%◌, ◌^◌, Bool, true, false, not, ◌&&◌, Option, none, some, ◌==◌, ltb,
  if◌then◌else◌, [],
}
use libdfu.Base.Word.{add32, mask}
use libdfu.BinaryFile.{BinaryFile, bf_count, bf_dec_space}
use libdfu.Append.{append_data}
use libdfu.Ihex.{
  LineData, RecordType, Hex, Peeked, ihex_data, ihex_eof, ihex_ext_seg_address,
  ihex_start_seg_address, ihex_ext_linear_address, ihex_start_linear_address, malformed, incomplete,
  header, go_on, decode_hex, decode_hex_buf, peek_line_header,
}

-- `_check_line`, which checks nothing.
abbrev pub check_line : BinaryFile → LineData → Option ℕ
check_line bf ld = some 2

-- After the checksum; `ret` characters of data came before it.
pub data_checked : ℕ → BinaryFile → Option ℕ → Option ℕ × BinaryFile
data_checked ret bf none = (none, bf)
data_checked ret bf (some stat) = (some (ret + stat), record bf { tail = go_on bf bf.tail stat })

pub data_decoded : LineData → ℕ → Option ℕ × Hex → Option ℕ × BinaryFile
data_decoded ld tail (none, s) = (none, s.file)
data_decoded ld tail (some zero, s) = (some 0, s.file)
data_decoded ld tail (some (suc n), s) =
    let bf = record s.file { tail = go_on s.file tail (suc n); decoded_head = s.out_index } in
    data_checked (suc n) bf (check_line bf ld)

unfoldable pub decode_data_line : BinaryFile → LineData → Option ℕ × BinaryFile
unfolding data_decoded data_checked
decode_data_line bf ld =
    let decoded =
      data_decoded ld bf.tail (decode_hex_buf bf bf.tail bf.decoded_head (ld.byte_count * 2)) in
    if ltb (bf_dec_space bf) ld.byte_count
    then (some 0, bf)
    else if not (ld.data_start_index == bf.tail)
    then (none, bf)
    else decoded

-- The variables of `ihex_decode_chunk`. `addr` is what `*addr` was set to.
pub record Progress : Type 0 where
  pub file : BinaryFile
  pub tot : ℕ
  pub decoded_tot : ℕ
  pub next_addr : ℕ
  pub addr : Option ℕ

-- How the function ends: it returns, it reads or writes through a null `format_data`, or the fuel has
-- run out.
pub data Chunk : Type 0 where
  returned : Option ℕ → Progress → Chunk
  null_pointer : Chunk
  unfinished : Chunk

-- How a round of the loop ends.
pub data Line : Type 0 where
  more : Progress → Line
  stop : Chunk → Line

abbrev pub hi_addr : ℕ → ℕ
hi_addr a = bit_and a 4294901760

pub line_decoded : LineData → Progress → Option ℕ × BinaryFile → Line
line_decoded ld p (none, bf) = stop (returned none (record p { file = bf }))
line_decoded ld p (some zero, bf) = stop (returned (some 0) (record p { file = bf }))
line_decoded ld p (some (suc stat), bf) =
    more
      (record p { file = bf; tot = p.tot + suc stat; decoded_tot = p.decoded_tot + ld.byte_count })

-- IHEX_DATA; the argument is the address in the data of the format.
pub data_line : ℕ → LineData → Progress → Option ℕ → Line
data_line stat ld p none = stop null_pointer
data_line stat ld p (some base) =
    let curr_addr = bit_or (hi_addr base) ld.address in
    let bf = record p.file { tail = go_on p.file p.file.tail stat } in
    let begun = record p {
      file = bf;
      addr = (if p.tot == 0 then some curr_addr else p.addr);
      next_addr = add32 curr_addr ld.byte_count;
    } in
    let rest = line_decoded ld begun (decode_data_line bf ld) in
    if not (p.tot == 0) && not (curr_addr == p.next_addr)
    then stop (returned (some p.decoded_tot) p)
    else rest

-- IHEX_EOF
pub eof_line : ℕ → Progress → Line
eof_line stat p =
    let bf = record p.file { tail = go_on p.file p.file.tail stat; rx_done = true } in
    more (record p { file = (append_data bf []).1 })

-- The start of execution.
pub entry_line : Progress → Option ℕ × Hex → Line
entry_line p (none, s) = stop (returned none p)
entry_line p (some zero, s) = stop (returned (some 0) p)
entry_line p (some (suc n), s) =
    more (record p { file = record p.file { tail = s.index; entry_point = s.value } })

pub set_base : Progress → ℕ → ℕ → Option ℕ → Line
set_base p index a none = stop null_pointer
set_base p index a (some old) =
    more (record p { file = record p.file { tail = index; format_data = some a }; next_addr = a })

-- The high half of the addresses to come.
pub base_line : Progress → Option ℕ × Hex → Line
base_line p (none, s) = stop (returned none p)
base_line p (some zero, s) = stop (returned (some 0) p)
base_line p (some (suc n), s) = set_base p s.index (s.value * 2 ^ 16 % 2 ^ 32) p.file.format_data

-- switch (ld.record_type)
pub line_of_type : ℕ → LineData → Progress → RecordType → Line
line_of_type stat ld p ihex_data = data_line stat ld p p.file.format_data
line_of_type stat ld p ihex_eof = eof_line stat p
line_of_type stat ld p ihex_ext_seg_address = stop (returned none p)
line_of_type stat ld p ihex_start_seg_address =
    entry_line p (decode_hex p.file ld.data_start_index 8)
line_of_type stat ld p ihex_ext_linear_address =
    base_line p (decode_hex p.file ld.data_start_index 4)
line_of_type stat ld p ihex_start_linear_address =
    entry_line p (decode_hex p.file ld.data_start_index 8)

pub decode_line : Progress → Peeked → Line
decode_line p malformed = stop (returned none p)
decode_line p incomplete = stop (returned (some p.decoded_tot) p)
decode_line p (header stat ld) = line_of_type stat ld p ld.record_type

pub after_line : (Progress → Chunk) → Line → Chunk
after_line loop (more p) = loop p
after_line loop (stop c) = c

-- for (…; !bf->rx_done && !stopit; ), where `stopit` is never set.
pub decode_loop : ℕ → Progress → Chunk
decode_loop zero p = unfinished
decode_loop (suc n) p =
    let round = after_line (decode_loop n) (decode_line p (peek_line_header p.file)) in
    if p.file.rx_done then returned (some p.decoded_tot) p else round

-- Each line takes a byte at least off the receive buffer.
unfoldable pub ihex_decode_chunk : BinaryFile → Chunk
unfolding decode_loop after_line decode_line line_of_type data_line eof_line entry_line base_line
    set_base line_decoded decode_data_line peek_line_header decode_hex append_data
ihex_decode_chunk bf =
    decode_loop (bf_count bf + 2)
      (record { file = bf; tot = 0; decoded_tot = 0; next_addr = 0; addr = none })

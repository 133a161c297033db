-- ===== src/Ihex.antt =====
-- Intel HEX lines, src/binary-format-ihex.c: hex digits, the search for a line and its header, and the
-- probe. A `char` is its byte. A negative return is `none`; 0 asks for more input.
pub mod Chunk
pub mod Reads
pub mod Peek
use Prim.Native.Nat.{bit_or}
use libdfu.Base.{
  ℕ, zero, suc, ◌+◌, ◌-◌, ◌*◌, ◌%◌, ◌^◌, Bool, true, false, not, ◌&&◌, ◌||◌, Option, none, some,
  ◌==◌, ltb, leb, if◌then◌else◌, get_or, set,
}
use libdfu.Base.Word.{add32, mask}
use libdfu.BinaryFile.{BinaryFile, bf_count}

-- enum ihex_record_type
pub data RecordType : Type 0 where
  ihex_data : RecordType
  ihex_eof : RecordType
  ihex_ext_seg_address : RecordType
  ihex_start_seg_address : RecordType
  ihex_ext_linear_address : RecordType
  ihex_start_linear_address : RecordType

-- The record type with a number; `none` for a number out of the range that the source checks.
abbrev pub record_type_of : ℕ → Option RecordType
record_type_of zero = some ihex_data
record_type_of (suc zero) = some ihex_eof
record_type_of (suc (suc zero)) = some ihex_ext_seg_address
record_type_of (suc (suc (suc zero))) = some ihex_start_seg_address
record_type_of (suc (suc (suc (suc zero)))) = some ihex_ext_linear_address
record_type_of (suc (suc (suc (suc (suc zero))))) = some ihex_start_linear_address
record_type_of (suc (suc (suc (suc (suc (suc n)))))) = none

-- struct ihex_line_data
pub record LineData : Type 0 where
  pub start_index : ℕ
  pub data_start_index : ℕ
  pub byte_count : ℕ
  pub address : ℕ
  pub record_type : RecordType

-- ':'
abbrev pub colon : ℕ
colon = 58

abbrev pub go_on : BinaryFile → ℕ → ℕ → ℕ
go_on bf index amount = mask (add32 index amount) bf.max_size

abbrev pub next : BinaryFile → ℕ → ℕ
next bf index = go_on bf index 1

abbrev pub dec_next : BinaryFile → ℕ → ℕ
dec_next bf index = mask (add32 index 1) bf.decoded_size

-- '0' is 48, '9' 57, 'A' 65, 'F' 70, 'a' 97 and 'f' 102.
unfoldable pub hex_to_int : ℕ → Option ℕ
hex_to_int c =
    if leb 48 c && leb c 57
    then some (c - 48)
    else if leb 97 c && leb c 102
    then some (c - 97 + 10)
    else if leb 65 c && leb c 70
    then some (c - 65 + 10)
    else none

-- The variables of `_decode_hex`: `value` is `_out`, and `to_buf` tells whether `out_index` is given.
pub record Hex : Type 0 where
  pub file : BinaryFile
  pub index : ℕ
  pub value : ℕ
  pub to_buf : Bool
  pub out_index : ℕ

-- `*dst = stat << 4` for an even digit, `*dst |= stat` for an odd one.
pub put_digit : ℕ → ℕ → Hex → Hex
put_digit i stat s =
    let bf = s.file in
    let high = set bf.decoded_buf s.out_index (stat * 2 ^ 4 % 2 ^ 8) in
    let both = set bf.decoded_buf s.out_index (bit_or (get_or bf.decoded_buf s.out_index 0) stat) in
    if i % 2 == 0
    then record s { file = record bf { decoded_buf = high } }
    else record s { file = record bf { decoded_buf = both }; out_index = dec_next bf s.out_index }

-- The rest of a round of the loop, after the digit is read. The shift is the one of a number; for a
-- buffer the source also makes it and does not use what comes of it.
pub take_digit : ℕ → ℕ → ℕ → Hex → Hex
take_digit nbytes i stat s =
    let added = record s {
      value = bit_or s.value (stat * 2 ^ (4 * (nbytes - (i + 1))) % 2 ^ 32);
    } in
    let put = if s.to_buf then put_digit i stat added else added in
    record put { index = next s.file s.index }

pub hex_round : (Hex → Option ℕ × Hex) → ℕ → ℕ → Hex → Option ℕ → Option ℕ × Hex
hex_round continue nbytes i s none = (none, s)
hex_round continue nbytes i s (some stat) = continue (take_digit nbytes i stat s)

-- The loop with `n` rounds to go: how many digits it took, `none` for a character that is no digit.
pub hex_loop : ℕ → ℕ → ℕ → Hex → Option ℕ × Hex
hex_loop zero nbytes i s = (some i, s)
hex_loop (suc n) nbytes i s =
    let round =
      hex_round (hex_loop n nbytes (i + 1)) nbytes i s (hex_to_int (get_or s.file.buf s.index 0)) in
    if s.index == s.file.head then (some i, s) else round

-- `ret = *index == f->head ? 0 : i`
pub hex_result : Option ℕ × Hex → Option ℕ × Hex
hex_result (none, s) = (none, s)
hex_result (some i, s) = (if s.index == s.file.head then some 0 else some i, s)

-- `_decode_hex` for a number: it has 8 digits at most.
unfoldable pub decode_hex : BinaryFile → ℕ → ℕ → Option ℕ × Hex
unfolding hex_loop hex_round hex_result take_digit put_digit hex_to_int mask
decode_hex bf index nbytes =
    let s : Hex = record { file = bf; index = index; value = 0; to_buf = false; out_index = 0 } in
    let run = hex_result (hex_loop nbytes nbytes 0 s) in if ltb 8 nbytes then (none, s) else run

-- `_decode_hex_buf`
unfoldable pub decode_hex_buf : BinaryFile → ℕ → ℕ → ℕ → Option ℕ × Hex
unfolding hex_loop hex_round hex_result take_digit put_digit hex_to_int mask
decode_hex_buf bf index out_index len = hex_result (
    hex_loop len len 0
      (record { file = bf; index = index; value = 0; to_buf = true; out_index = out_index }))

-- for (ret = 0; ptr[*index] != ':' && *index != f->head; …) with `n` bytes left before the head, where
-- the loop stops in any case.
pub search : ℕ → BinaryFile → ℕ → ℕ → ℕ × ℕ
search zero bf ret index = (ret, index)
search (suc n) bf ret index =
    let rest = search n bf (ret + 1) (next bf index) in
    if get_or bf.buf index 0 == colon then (ret, index) else rest

-- The bytes up to the ':' and with it, 0 if there is none, and the index behind it.
unfoldable pub search_line : BinaryFile → ℕ × ℕ
unfolding search mask
search_line bf =
    let (ret, index) = search (bf_count bf) bf 0 bf.tail in
    if get_or bf.buf index 0 == colon then (ret + 1, next bf index) else (0, index)

-- What `_peek_line_header` finds: a negative return, 0, or the bytes read and the header.
pub data Peeked : Type 0 where
  malformed : Peeked
  incomplete : Peeked
  header : ℕ → LineData → Peeked

pub peek_field : Option ℕ × Hex → (ℕ → Hex → Peeked) → Peeked
peek_field (none, s) then_do = malformed
peek_field (some zero, s) then_do = incomplete
peek_field (some (suc n), s) then_do = then_do (suc n) s

-- The record type has been read, and `ret` bytes with it; `ld` is without the type.
pub peek_end : BinaryFile → ℕ → ℕ → ℕ → ℕ → ℕ → Option RecordType → Peeked
peek_end bf ret start index byte_count address none = malformed
peek_end bf ret start index byte_count address (some rt) =
    if ltb (bf_count bf) (byte_count * 2 + ret + 2)
    then incomplete
    else header ret (record {
      start_index = start;
      data_start_index = index;
      byte_count = byte_count;
      address = address;
      record_type = rt;
    })

-- The line starts at `start`, `found` bytes behind the tail.
pub peek_fields : BinaryFile → ℕ → ℕ → Peeked
peek_fields bf found start = peek_field (decode_hex bf start 2) (λ n count.
    peek_field (decode_hex bf count.index 4) (λ m address.
      peek_field (decode_hex bf address.index 2) (λ k rt.
        peek_end bf (found + n + m + k) start rt.index count.value address.value
          (record_type_of rt.value))))

pub peek_found : BinaryFile → ℕ × ℕ → Peeked
peek_found bf (zero, start) = incomplete
peek_found bf (suc found, start) = peek_fields bf (suc found) start

unfoldable pub peek_line_header : BinaryFile → Peeked
unfolding peek_found peek_fields peek_field peek_end search_line decode_hex
peek_line_header bf = peek_found bf (search_line bf)

pub probe_end : BinaryFile → Peeked → Bool × BinaryFile
probe_end bf malformed = (false, bf)
probe_end bf incomplete = (true, bf)
probe_end bf (header n ld) = (true, record bf { format_data = some 0 })

-- True is for 0, with which a format accepts the file.
unfoldable pub ihex_probe : BinaryFile → Bool × BinaryFile
unfolding probe_end peek_line_header
ihex_probe bf =
    let probed = probe_end bf (peek_line_header bf) in
    if ltb (bf_count bf) 9 then (false, bf) else probed

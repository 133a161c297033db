-- ===== src/Ihex/Chunk/Total.antt =====
-- `ihex_decode_chunk` ends on any input: each line takes bytes off the receive buffer.
use native.Mathlib.Nat.{mod-lt}
use libdfu.Base.{
  ℕ, zero, suc, ◌+◌, ◌*◌, ◌%◌, ◌^◌, ◌≤◌, Bool, ◌<◌, ◌≡◌, refl, Option, none, some, true, false,
  if◌then◌else◌, arith,
}
use libdfu.BinaryFile.{BinaryFile, bf_count}
use libdfu.Append.Copy.{IsReceiving}
use libdfu.Ihex.{
  Hex, LineData, RecordType, Peeked, malformed, incomplete, header, decode_hex, peek_line_header,
  ihex_data, ihex_eof, ihex_ext_seg_address, ihex_start_seg_address, ihex_ext_linear_address,
  ihex_start_linear_address,
}
use libdfu.Ihex.Peek.{Field, decode_hex-Field, WholeLine, Peeks, peek_line_header-Peeks}
use libdfu.Ihex.Chunk.{
  Progress, Chunk, returned, null_pointer, unfinished, Line, more, stop, entry_line, set_base,
  base_line, line_of_type, decode_line, after_line, decode_loop, ihex_decode_chunk,
}
use libdfu.Ihex.Chunk.Shorter.{left, Advances, data_line-Advances, eof_line-Advances, field-Shorter}

module _ (p : Progress) (v : IsReceiving p.file) (stat : ℕ) (ld : LineData)
    (whole : WholeLine p.file stat ld) where
  entry_line-Advances :
      (n : ℕ) (r : Option ℕ × Hex)
      → Field n p.file ld.data_start_index r
      → Advances p.file (entry_line p r)
  unfolding entry_line
  entry_line-Advances n (none, s) f = tt
  entry_line-Advances n (some zero, s) f = tt
  entry_line-Advances n (some (suc m), s) f =
      field-Shorter p v stat ld whole n (suc m) s _ f
        (record { same_buf = refl; same_head = refl; same_tail = refl; same_size = refl }) refl

  base_line-Advances :
      (n : ℕ) (r : Option ℕ × Hex)
      → Field n p.file ld.data_start_index r
      → Advances p.file (base_line p r)
  unfolding base_line set_base
  base_line-Advances n (none, s) f = tt
  base_line-Advances n (some zero, s) f = tt
  base_line-Advances n (some (suc m), s) f = based p.file.format_data
    where
      based : (o : Option ℕ) → Advances p.file (set_base p s.index (s.value * 2 ^ 16 % 2 ^ 32) o)
      based none = tt
      based (some old) =
          field-Shorter p v stat ld whole n (suc m) s _ f
            (record { same_buf = refl; same_head = refl; same_tail = refl; same_size = refl }) refl

  data_start_in : ld.data_start_index < 2048
  data_start_in = rw whole.at (mod-lt (p.file.tail + stat) (omega arith))

  line_of_type-Advances : (rt : RecordType) → Advances p.file (line_of_type stat ld p rt)
  unfolding line_of_type
  line_of_type-Advances ihex_data = data_line-Advances p v stat ld whole p.file.format_data
  line_of_type-Advances ihex_eof = eof_line-Advances p v stat ld whole
  line_of_type-Advances ihex_ext_seg_address = tt
  line_of_type-Advances ihex_start_seg_address =
      entry_line-Advances 8 (decode_hex p.file ld.data_start_index 8)
        (decode_hex-Field p.file v ld.data_start_index data_start_in 8)
  line_of_type-Advances ihex_ext_linear_address =
      base_line-Advances 4 (decode_hex p.file ld.data_start_index 4)
        (decode_hex-Field p.file v ld.data_start_index data_start_in 4)
  line_of_type-Advances ihex_start_linear_address =
      entry_line-Advances 8 (decode_hex p.file ld.data_start_index 8)
        (decode_hex-Field p.file v ld.data_start_index data_start_in 8)

decode_line-Advances :
    (p : Progress) (r : Peeked)
    → IsReceiving p.file
    → Peeks p.file r
    → Advances p.file (decode_line p r)
unfolding decode_line
decode_line-Advances p malformed v k = tt
decode_line-Advances p incomplete v k = tt
decode_line-Advances p (header stat ld) v k = line_of_type-Advances p v stat ld k ld.record_type

-- The function returned, or came upon missing data of the format; the fuel did not run out.
abbrev pub Ended : Chunk → Type 0
Ended (returned stat p) = Unit
Ended null_pointer = Unit
Ended unfinished = ⊥

after_line-Ended :
    (bf : BinaryFile) (loop : Progress → Chunk) (l : Line)
    → Advances bf l
    → ((p : Progress) → IsReceiving p.file → left p.file ≤ bf_count bf → Ended (loop p))
    → Ended (after_line loop l)
unfolding after_line
after_line-Ended bf loop (more p) a ih = ih p a.0 a.1
after_line-Ended bf loop (stop (returned stat p)) a ih = tt
after_line-Ended bf loop (stop null_pointer) a ih = tt
after_line-Ended bf loop (stop unfinished) a ih = a

Ended-if : (b : Bool) (c d : Chunk) → Ended c → (b ≡ false → Ended d) → Ended (if b then c else d)
Ended-if true c d h k = h
Ended-if false c d h k = k refl

decode_loop-Ended :
    (n : ℕ) (p : Progress) → IsReceiving p.file → left p.file < n → Ended (decode_loop n p)
unfolding decode_loop
decode_loop-Ended zero p v enough = absurd (omega arith)
decode_loop-Ended (suc n) p v enough = Ended-if p.file.rx_done _ _ tt (λ not_done.
    after_line-Ended p.file (decode_loop n) (decode_line p (peek_line_header p.file))
      (decode_line-Advances p (peek_line_header p.file) v (peek_line_header-Peeks p.file v))
      (λ q w fewer.
        decode_loop-Ended n q w
          (let enough' : bf_count p.file < n = ground (arith, not_done, enough) in omega arith)))

-- `ihex_decode_chunk` ends, whatever a well-formed receive buffer holds: the fuel, two rounds more than there
-- are bytes, is enough.
pub ihex_decode_chunk-Ended : (bf : BinaryFile) → IsReceiving bf → Ended (ihex_decode_chunk bf)
unfolding ihex_decode_chunk
ihex_decode_chunk-Ended bf v = decode_loop-Ended (bf_count bf + 2) _ v (ground arith)

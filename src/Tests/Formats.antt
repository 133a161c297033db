-- ===== src/Tests/Formats.antt =====
-- Inputs for the formats.
use libdfu.Append.Copy.{IsReceiving}
use libdfu.Base.{length-replicate, arith, min, ℕ, ◌≡◌, refl, some, none, Option, ◌∷◌, replicate}
use libdfu.BinaryFile.{BinaryFile, bf_count}
use libdfu.Raw.{subcopy}
use libdfu.Raw.Copies.{Takes, subcopy-Takes}
use libdfu.Ihex.{peek_line_header}
use libdfu.Ihex.Peek.{Peeks, peek_line_header-Peeks}
use libdfu.Ihex.Chunk.{Chunk, returned, null_pointer, unfinished, ihex_decode_chunk}
use libdfu.Ihex.Chunk.Total.{Ended, ihex_decode_chunk-Ended}
use libdfu.Tests.BinaryFile.{fresh}

-- ":020010001AfE" and a checksum: two bytes for address 16.
abbrev one_line : BinaryFile
one_line = record fresh {
  buf =
      58
      ∷ 48
      ∷ 50
      ∷ 48
      ∷ 48
      ∷ 49
      ∷ 48
      ∷ 48
      ∷ 48
      ∷ 49
      ∷ 65
      ∷ 102
      ∷ 69
      ∷ 49
      ∷ 50
      ∷ 10
      ∷ replicate 2032 0;
  decoded_buf = replicate 4 0;
  head = 16;
  format_data = some 65536;
}

one_line-IsReceiving : IsReceiving one_line
one_line-IsReceiving = record {
  whole = refl;
  storage = omega (arith, length-replicate {A = ℕ} 2032 0);
  head_in = omega arith;
  tail_in = omega arith;
}

ihex_decode_chunk-Ended_example : Ended (ihex_decode_chunk one_line)
ihex_decode_chunk-Ended_example = ihex_decode_chunk-Ended one_line one_line-IsReceiving

peek_line_header-Peeks_example : Peeks one_line (peek_line_header one_line)
peek_line_header-Peeks_example = peek_line_header-Peeks one_line one_line-IsReceiving

abbrev decoded : Chunk → Option ℕ × ℕ × Option ℕ × ℕ
decoded (returned stat p) = (stat, p.decoded_tot, p.addr, p.file.tail)
decoded null_pointer = (none, 0, none, 0)
decoded unfinished = (none, 0, none, 0)

decodes_line : decoded (ihex_decode_chunk one_line) ≡ (some 2, 2, some 65552, 15)
unfolding ihex_decode_chunk libdfu.BinaryFile.bf_count libdfu.Circular.count
    libdfu.BinaryFile.bf_dec_space libdfu.Circular.space libdfu.Ihex.decode_hex_buf
decodes_line = refl

subcopy-Takes_example :
    Takes one_line (min 5 (bf_count one_line)) (subcopy one_line 5).0 (subcopy one_line 5).1
subcopy-Takes_example = subcopy-Takes one_line one_line-IsReceiving 5

-- ===== src/Tests/NordicZip.antt =====
-- A receive buffer that has the beginning of a header, behind two other bytes.
use libdfu.Base.{
  ◌≡◌, refl, ◌++◌, ◌+◌, ℕ, true, false, some, none, length, ◌∷◌, [], replicate, arith,
}
use libdfu.Base.Word.{add32, mask}
use libdfu.Circular.{count}
use libdfu.BinaryFile.{BinaryFile, bf_count}
use libdfu.Append.Copy.{IsReceiving}
use libdfu.NordicZip.{Zip, FileCalls, sending_data, zeroed}
use libdfu.NordicZip.Images.{Json}
use libdfu.NordicZip.Decode.{nz_decode_chunk}
use libdfu.NordicZip.Decode.Ends.{Ended, nz_decode_chunk-Ended}
use libdfu.NordicZip.Send.{payload, state_to_address, image_of, offset_of, type_at}
use libdfu.NordicZip.Send.Address.{type_at-state_to_address}
use libdfu.Tests.BinaryFile.{fresh}

abbrev with_header : BinaryFile
with_header = record fresh {
  buf = (80 ∷ 80 ∷ 80 ∷ 75 ∷ 3 ∷ 4 ∷ 10 ∷ 0 ∷ []) ++ replicate 2040 0;
  head = 8;
}

with_header-IsReceiving : IsReceiving with_header
with_header-IsReceiving = record {
  whole = refl;
  storage = omega arith;
  head_in = omega arith;
  tail_in = omega arith;
}

type_at-state_to_address_example :
    (type_at (add32 (state_to_address sending_data 2) 384) ≡ payload)
    × (image_of (add32 (state_to_address sending_data 2) 384) ≡ 2)
    × (offset_of (add32 (state_to_address sending_data 2) 384) ≡ 384)
type_at-state_to_address_example =
    type_at-state_to_address sending_data 2 384 (omega arith) (omega arith)

-- A container that opens every file under one descriptor and counts what is written, and a parser that
-- takes no text.
abbrev counting_calls : FileCalls ℕ
counting_calls = record {
  open_file = λ e name create size. (some 3, e);
  close = λ e fd. e;
  read = λ e fd n. (none, e);
  write = λ e fd bytes. (true, e + length bytes);
  remove = λ e name. e;
}

abbrev no_json : Json ℕ
no_json = record {
  parse = λ text. none;
  search_token = λ tokens s. none;
  scan_tokens = λ tokens s t. ([], true);
}

abbrev with_archive : Zip ℕ
with_archive = record { bf = with_header; priv = zeroed; fault = false; rest = 0 }

with_header-count : bf_count with_header ≡ 8
unfolding bf_count count mask
with_header-count = refl

nz_decode_chunk-Ended_example : Ended (nz_decode_chunk counting_calls no_json 18 with_archive 0)
nz_decode_chunk-Ended_example =
    nz_decode_chunk-Ended counting_calls no_json 18 with_archive 0 with_header-IsReceiving
      (omega (arith, with_header-count))

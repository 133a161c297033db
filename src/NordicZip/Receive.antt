-- ===== src/NordicZip/Receive.antt =====
-- The files of an archive as they are received, src/binary-format-nordic-zip.c: the local header and the
-- bytes behind it.
use libdfu.Base.{
  ℕ, ◌+◌, ◌-◌, ◌/◌, ◌%◌, Bool, true, false, not, ◌||◌, Option, none, some, List, [], ◌∷◌, ◌++◌,
  ◌==◌, ltb, leb, min, if◌then◌else◌, get_or, set, length, take, drop,
}
use libdfu.Base.Word.{add32, sub32}
use libdfu.BinaryFile.{BinaryFile, bf_count, bf_count_to_end}
use libdfu.Ihex.{go_on}
use libdfu.NordicZip.{
  Zip, NzData, ReceivedFile, FileCalls, LocalHeader, HeaderType, local_header, central_header,
  end_central_header, idle, ignoring_file, storing_file, zeroed, no_file, local_header_size,
  local_header_of, peek_bytes, c_string, extension, same_bytes, max_fname, max_manifest_size, le16,
}
use libdfu.NordicZip.Search.{Searched, not_enough, found, search_signature}

abbrev pub is_local_header : HeaderType → Bool
is_local_header local_header = true
is_local_header central_header = false
is_local_header end_central_header = false

-- `_peek_local_file_header` from the start of a header on, with its result and the header; `none` is for
-- -1.
unfoldable pub peek_from : BinaryFile → ℕ → Option ℕ × LocalHeader
peek_from bf start =
    let (base, index) = peek_bytes local_header_size bf start in
    let (name, index') = peek_bytes (min (le16 base 26) max_fname) bf index in
    let h = local_header_of base name in
    let whole = local_header_size + h.file_name_len + h.extra_field_len in
    if index == bf.head
    then (some 0, h)
    else if ltb max_fname h.file_name_len
    then (none, h)
    else if index' == bf.head
    then (none, h)
    else if ltb (bf_count bf) whole
    then (none, h)
    else (some whole, h)

-- `_peek_local_file_header` with a start below 0: the search comes first, and its result is outside when
-- the rounds of the search do not end.
pub peek_found : BinaryFile → Option Searched → Option (Option ℕ × LocalHeader)
peek_found bf none = none
peek_found bf (some not_enough) = some (some 0, local_header_of [] [])
peek_found bf (some (found consumed start t)) =
    some (if is_local_header t then peek_from bf start else (none, local_header_of [] []))

unfoldable pub peek_local_file_header : BinaryFile → Option (Option ℕ × LocalHeader)
unfolding peek_found
peek_local_file_header bf = peek_found bf (search_signature bf)

-- `nz_probe`
module _ {E : Type 0} where
  abbrev probed : Zip E → Option (Option ℕ × LocalHeader) → Option (Bool × Zip E)
  probed z none = none
  probed z (some (none, h)) = some (false, z)
  probed z (some (some stat, h)) =
      let p = z.priv in
      if stat == 0
      then some (false, z)
      else some (
        true,
        record z {
          priv = record p { rx_file_count = 0; send_image_index = 0; files = zeroed.files };
        },
      )

  unfoldable pub nz_probe : Zip E → Option (Bool × Zip E)
  nz_probe z = probed z (peek_local_file_header z.bf)

-- The first free file from number `i` on.
unfoldable pub free_file : List ReceivedFile → ℕ → Option ℕ
free_file [] i = none
free_file (rf ∷ files) i =
    let rest = free_file files (i + 1) in if length rf.name == 0 then some i else rest

abbrev pub file_at : NzData → ℕ → ReceivedFile
file_at p i = get_or p.files i no_file

abbrev pub put_file : NzData → ℕ → ReceivedFile → NzData
put_file p i rf = record p { files = set p.files i rf }

abbrev named : NzData → List ℕ → ℕ → Option ℕ → Option ℕ × NzData
named p name size none = (none, p)
named p name size (some i) =
    (some i, put_file p i (record (file_at p i) { name = name; size = size; done = 0 }))

-- `_get_rx_file`: ".json" goes to file 0 and to the buffer for the manifest, ".bin" and ".dat" to a free
-- one.
unfoldable pub get_rx_file : NzData → LocalHeader → Option ℕ × NzData
get_rx_file p h =
    let name = c_string (take h.file_name_len h.file_name) in
    let ext = extension name in
    let manifest = record (file_at p 0) {
      is_local = true;
      local_buf_offset = 0;
      local_buf_size = max_manifest_size;
    } in
    let is_bin = same_bytes ext (46 ∷ 98 ∷ 105 ∷ 110 ∷ []) in
    let is_dat = same_bytes ext (46 ∷ 100 ∷ 97 ∷ 116 ∷ []) in
    if same_bytes ext (46 ∷ 106 ∷ 115 ∷ 111 ∷ 110 ∷ [])
    then if not (length (file_at p 0).name == 0)
      then (none, p)
      else if ltb max_manifest_size h.uncompressed_size
      then (none, p)
      else named (put_file p 0 manifest) name h.uncompressed_size (some 0)
    else if is_bin || is_dat
    then named p name h.uncompressed_size (free_file (drop 1 p.files) 1)
    else (none, p)

-- The `memcpy` to the buffer for the manifest
abbrev pub kept_locally : NzData → List ℕ → ℕ → NzData
kept_locally p bytes sz =
    let rf = file_at p p.curr_rf in
    put_file (record p { manifest_buffer = take rf.local_buf_offset p.manifest_buffer ++ bytes })
      p.curr_rf (record rf { local_buf_offset = rf.local_buf_offset + sz })

module _ {E : Type 0} where
  abbrev pub moved_tail : Zip E → ℕ → Zip E
  moved_tail z sz = record z { bf = record z.bf { tail = go_on z.bf z.bf.tail sz } }

  -- The end of `_do_store`, once `sz` bytes are kept.
  abbrev pub counted_in : Zip E → ℕ → Zip E
  counted_in z sz =
      let p = z.priv in
      let rf = file_at p p.curr_rf in
      let rf' = record rf { done = add32 rf.done sz } in
      let p' = put_file p p.curr_rf rf' in
      let p'' = record p' { rx_file_count = p'.rx_file_count + 1; state = idle } in
      moved_tail (record z { priv = if leb rf'.size rf'.done then p'' else p' }) sz

  -- `_do_ignore`
  unfoldable pub do_ignore : Zip E → Option ℕ × Zip E
  do_ignore z =
      let sz = bf_count z.bf in
      let p = record z.priv { ignored = add32 z.priv.ignored sz } in
      let p' = record p { state = idle } in
      (some 0, moved_tail (record z { priv = if leb p.ignored_size p.ignored then p' else p }) sz)

module _ {E : Type 0} (calls : FileCalls E) where
  abbrev pub stored_in : Zip E → ℕ → Option ℕ × E → Zip E
  stored_in z i (none, e) = record z { priv = zeroed; rest = e }
  stored_in z i (some fd, e) = record z {
    priv = put_file z.priv i (record (file_at z.priv i) { fd = some fd });
    rest = e;
  }

  -- From `_get_rx_file` on in `_decode_local_header`
  abbrev pub received_in : Zip E → Option ℕ × NzData → Zip E
  received_in z (none, p) = record z { priv = record p { state = ignoring_file } }
  received_in z (some i, p) =
      let rf = file_at p i in
      stored_in (record z { priv = record p { curr_rf = i; state = storing_file } }) i
        (calls.open_file z.rest rf.name true rf.size)

  abbrev pub header_taken : Zip E → ℕ → LocalHeader → Option ℕ × Zip E
  header_taken z stat h =
      let ignoring = record z.priv {
        state = ignoring_file;
        ignored = 0;
        ignored_size = h.uncompressed_size;
      } in
      if not (h.compression == 0)
      then (none, z)
      else if h.flags / 8 % 2 == 1
      then (none, z)
      else if h.flags % 2 == 1 || (h.flags / 64 % 2 == 1)
      then (none, z)
      else if ltb (max_fname - 1) h.file_name_len
      then (some stat, record z { priv = ignoring })
      else (some stat, received_in z (get_rx_file z.priv h))

  -- `_decode_local_header`
  unfoldable pub local_header_peeked : Zip E → Option ℕ × LocalHeader → Option ℕ × Zip E
  local_header_peeked z (none, h) = (none, z)
  local_header_peeked z (some stat, h) = if stat == 0 then (some 0, z) else header_taken z stat h

  unfoldable pub decode_local_header : Zip E → ℕ → Option ℕ × Zip E
  unfolding local_header_peeked
  decode_local_header z start = local_header_peeked z (peek_from z.bf start)

  abbrev pub file_written : Zip E → ℕ → Bool × E → Option ℕ × Zip E
  file_written z sz (false, e) = (none, record z { priv = zeroed; rest = e })
  file_written z sz (true, e) = (some 0, counted_in (record z { rest = e }) sz)

  -- `_do_store`
  unfoldable pub do_store : Zip E → Option ℕ × Zip E
  do_store z =
      let p = z.priv in
      let rf = file_at p p.curr_rf in
      let room = min (bf_count_to_end z.bf) (sub32 rf.size rf.done) in
      let sz = min room (sub32 (sub32 rf.local_buf_size rf.local_buf_offset) 1) in
      let there = drop z.bf.tail z.bf.buf in
      let local : Option ℕ × Zip E =
        (some 0, counted_in (record z { priv = kept_locally p (take sz there) sz }) sz) in
      let to_file = file_written z room (calls.write z.rest rf.fd (take room there)) in
      if rf.is_local then local else to_file

-- ===== src/NordicZip/Decode.antt =====
-- `nz_decode_chunk`, src/binary-format-nordic-zip.c: the states of the format, and the headers that are
-- not of a file.
pub mod Headers
pub mod Sends
pub mod Takes
pub mod Ends
use libdfu.Base.{
  ℕ, zero, suc, ◌+◌, Bool, true, false, not, ◌&&◌, Option, none, some, List, [], ◌∷◌, ◌==◌, ltb,
  if◌then◌else◌,
}
use libdfu.BinaryFile.{BinaryFile, bf_count}
use libdfu.Ihex.{next}
use libdfu.NordicZip.{
  Zip, NzData, NzState, HeaderType, FileCalls, local_header, central_header, end_central_header,
  idle, ignoring_file, storing_file, sending_command, sending_data, all_done, zeroed, byte_at, le16,
}
use libdfu.NordicZip.Search.{Searched, not_enough, found, search_signature}
use libdfu.NordicZip.Receive.{decode_local_header, do_store, do_ignore, moved_tail}
use libdfu.NordicZip.Images.{Json, parse_manifest}
use libdfu.NordicZip.Send.{finish, realign_decoded_head, send_file_chunk}

-- `n` bytes from an index on, and the index behind them.
unfoldable pub copy_bytes : ℕ → BinaryFile → ℕ → List ℕ × ℕ
copy_bytes zero bf index = ([], index)
copy_bytes (suc n) bf index =
    let rest = copy_bytes n bf (next bf index) in (byte_at bf index ∷ rest.0, rest.1)

-- The sizes of `union zip_central_dir_file_header`, with the padding in front of its words, and of `union
-- zip_end_of_central_dir_header`
abbrev pub central_size : ℕ
central_size = 44

abbrev pub end_size : ℕ
end_size = 22

-- What a state comes to: whether the loop is left, the result, the address and what is left.
abbrev pub Step : Type 0 → Type 0
Step E = Bool × Option ℕ × ℕ × Zip E

abbrev pub is_positive : Option ℕ → Bool
is_positive none = false
is_positive (some n) = ltb 0 n

abbrev pub same_state : NzState → NzState → Bool
same_state a b = code a == code b
  where
    code : NzState → ℕ
    code idle = 0
    code ignoring_file = 1
    code storing_file = 2
    code sending_command = 3
    code sending_data = 4
    code all_done = 5

abbrev pub is_error : Option ℕ → Bool
is_error none = true
is_error (some n) = false

module _ {E : Type 0} where
  -- The tail moves by what a header comes to.
  abbrev pub header_done : Option ℕ × Zip E → Option ℕ × Zip E
  header_done (none, z) = (none, z)
  header_done (some stat, z) = if stat == 0 then (some 0, z) else (some 0, moved_tail z stat)

  abbrev pub went_on : ℕ → Option ℕ × Zip E → Step E
  went_on addr (r, z) = (false, r, addr, z)

  abbrev pub chunk_sent : Option ℕ × ℕ × Zip E → Step E
  chunk_sent (r, addr, z) = (is_positive r, r, addr, z)

  abbrev pub idled : ℕ → Option (Option ℕ × Zip E) → Option (Step E)
  idled addr none = none
  idled addr (some r) = some (went_on addr r)

module _ {E T : Type 0} (calls : FileCalls E) (json : Json T) where
  -- `_decode_central_header`
  unfoldable pub decode_central_header : Zip E → ℕ → Option ℕ × Zip E
  decode_central_header z start =
      let (h, index) = copy_bytes central_size z.bf start in
      let whole = central_size + le16 h 30 in
      if ltb (bf_count z.bf) central_size
      then (some 0, z)
      else if index == z.bf.head
      then (some 0, z)
      else if ltb (bf_count z.bf) whole
      then (some 0, z)
      else (some whole, z)

  -- `_start_sending_images`
  unfoldable pub start_sending_images : Zip E → Zip E
  start_sending_images z =
      if z.priv.rx_file_count == 0
      then finish z
      else record z { priv = record z.priv { send_image_index = 0; state = sending_command } }

  abbrev pub manifest_parsed : Zip E → ℕ → Bool × NzData → Option ℕ × Zip E
  manifest_parsed z whole (false, p) = (none, record z { priv = p })
  manifest_parsed z whole (true, p) = (some whole, start_sending_images (record z { priv = p }))

  -- `_decode_end_central_header`
  unfoldable pub decode_end_central_header : Zip E → ℕ → Option ℕ × Zip E
  decode_end_central_header z start =
      let (h, index) = copy_bytes end_size z.bf start in
      let whole = end_size + le16 h 20 in
      let parsed = manifest_parsed z whole (parse_manifest json z.priv) in
      if ltb (bf_count z.bf) end_size
      then (some 0, z)
      else if ltb (bf_count z.bf) whole
      then (some 0, z)
      else parsed

  abbrev pub decode_header : Zip E → ℕ → HeaderType → Option ℕ × Zip E
  decode_header z start local_header = decode_local_header calls z start
  decode_header z start central_header = decode_central_header z start
  decode_header z start end_central_header = decode_end_central_header z start

  -- `_do_idle`; the search is `none` if its rounds do not end.
  unfoldable pub idle_found : Zip E → Option Searched → Option (Option ℕ × Zip E)
  idle_found z none = none
  idle_found z (some not_enough) = some (some 0, z)
  idle_found z (some (found consumed start t)) = some (header_done (decode_header z start t))

  unfoldable pub do_idle : Zip E → Option (Option ℕ × Zip E)
  unfolding idle_found
  do_idle z = idle_found z (search_signature z.bf)

  abbrev pub realigned : ℕ × ℕ × Zip E → Step E
  realigned (sz, addr, z) =
      let chunk = chunk_sent (send_file_chunk calls z addr) in
      if ltb 0 sz then (true, some sz, addr, z) else chunk

  abbrev pub step_in : NzState → Zip E → ℕ → Option (Step E)
  step_in idle z addr = idled addr (do_idle z)
  step_in storing_file z addr = some (went_on addr (do_store calls z))
  step_in ignoring_file z addr = some (went_on addr (do_ignore z))
  step_in sending_command z addr = some (realigned (realign_decoded_head z addr))
  step_in sending_data z addr = some (realigned (realign_decoded_head z addr))
  step_in all_done z addr = some (false, some 0, addr, z)

  -- The `switch` of `nz_decode_chunk`
  unfoldable pub decode_step : Zip E → ℕ → Option (Step E)
  decode_step z addr = step_in z.priv.state z addr

  unfoldable pub step_done :
      (Zip E → ℕ → Option (Option ℕ × ℕ × Zip E))
      → NzState
      → Option (Step E)
      → Option (Option ℕ × ℕ × Zip E)
  step_done again old none = none
  step_done again old (some (do_break, r, addr, z)) =
      let rest = again z addr in
      if not (same_state z.priv.state old) && not (is_error r) && not do_break
      then rest
      else some (r, addr, z)

  -- `nz_decode_chunk` for `n` rounds at most
  unfoldable pub nz_decode_chunk : ℕ → Zip E → ℕ → Option (Option ℕ × ℕ × Zip E)
  unfolding step_done decode_step
  nz_decode_chunk zero z addr = none
  nz_decode_chunk (suc n) z addr = step_done (nz_decode_chunk n) z.priv.state (decode_step z addr)

  -- `nz_fini`
  unfoldable pub nz_fini : Zip E → Zip E
  nz_fini z = record z { priv = zeroed }

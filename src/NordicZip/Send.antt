-- ===== src/NordicZip/Send.antt =====
-- The images of an archive as they are sent, src/binary-format-nordic-zip.c, and what the target asks of
-- them.
pub mod Address
use libdfu.Base.{
  ℕ, zero, suc, ◌+◌, ◌-◌, ◌*◌, ◌/◌, ◌%◌, ◌^◌, Bool, true, false, not, Option, none, some, List, [],
  ◌∷◌, ◌==◌, ltb, leb, min, if◌then◌else◌, length,
}
use libdfu.Base.Word.{add32, sub32}
use libdfu.Circular.Window.{blit}
use libdfu.BinaryFile.{BinaryFile, bf_dec_space_to_end}
use libdfu.Append.{append_data}
use libdfu.Ihex.{go_on}
use libdfu.Crc32.{crc32_init, crc32_iteration, crc32_done}
use libdfu.NordicZip.{
  Zip, NzData, NzState, ReceivedFile, FirmwareImage, FileCalls, idle, ignoring_file, storing_file,
  sending_command, sending_data, all_done,
}
use libdfu.NordicZip.Receive.{file_at, put_file}
use libdfu.NordicZip.Images.{image_at}

-- NZ_FWFILE_DATA_FLAG, NZ_FWFILE_THROW_AWAY
abbrev pub data_flag : ℕ
data_flag = 2 ^ 29

abbrev pub throw_away : ℕ
throw_away = 2 ^ 28

abbrev pub is_sending_command : NzState → Bool
is_sending_command sending_command = true
is_sending_command idle = false
is_sending_command ignoring_file = false
is_sending_command storing_file = false
is_sending_command sending_data = false
is_sending_command all_done = false

-- `_state_to_address`
unfoldable pub state_to_address : NzState → ℕ → ℕ
state_to_address state image_index =
    add32 (if is_sending_command state then 0 else data_flag) (image_index * 2 ^ 30 % 2 ^ 32)

module _ {E : Type 0} where
  -- `_all_done`
  unfoldable pub finish : Zip E → Zip E
  finish z = record z {
    bf = (append_data (record z.bf { rx_done = true }) []).1;
    priv = record z.priv { state = all_done };
  }

  -- `_next_file`, by the state. The image behind the last place of the array is taken for one without a
  -- name.
  unfoldable pub next_in : Zip E → NzState → Zip E
  unfolding finish
  next_in z sending_command = record z { priv = record z.priv { state = sending_data } }
  next_in z sending_data =
      let p = record z.priv { send_image_index = z.priv.send_image_index + 1 } in
      let moved = record z { priv = p } in
      if length (image_at p p.send_image_index).name == 0 then finish moved else moved
  next_in z idle = z
  next_in z ignoring_file = z
  next_in z storing_file = z
  next_in z all_done = z

  abbrev pub next_file : Zip E → Zip E
  next_file z = next_in z z.priv.state

  -- A null pointer
  abbrev pub faulty : Zip E → Option ℕ × ℕ × Zip E
  faulty z = (none, 0, record z { fault = true })

  -- `_realign_decoded_head`, with the address when there is one to set
  unfoldable pub realign_decoded_head : Zip E → ℕ → ℕ × ℕ × Zip E
  realign_decoded_head z addr =
      let off = z.bf.decoded_head % z.bf.write_chunk_size in
      let sz = z.bf.write_chunk_size - off in
      if off == 0 then (0, addr, z) else (
        sz,
        throw_away,
        record z { bf = record z.bf { decoded_head = go_on z.bf z.bf.decoded_head sz } },
      )

  module _ (calls : FileCalls E) where
    -- `_send_file_chunk` of file `i`: the last part, once `sz` bytes are in the decoded buffer.
    abbrev pub sent : Zip E → ℕ → ℕ → Option ℕ × ℕ × Zip E
    sent z i sz =
        let rf = file_at z.priv i in
        let addr = add32 (state_to_address z.priv.state z.priv.send_image_index) rf.done in
        let rf' = record rf { done = add32 rf.done sz } in
        let bf' = record z.bf { decoded_head = go_on z.bf z.bf.decoded_head sz } in
        let z' = record z { bf = bf'; priv = put_file z.priv i rf' } in
        let closed = record z' { rest = calls.remove (calls.close z'.rest rf.fd) rf.name } in
        (some sz, addr, if leb rf'.size rf'.done then next_file closed else z')

    abbrev pub read_in : Zip E → ℕ → ℕ → ℕ → Option (List ℕ) × E → Option ℕ × ℕ × Zip E
    read_in z i addr sz (none, e) = (none, addr, record z { rest = e })
    read_in z i addr sz (some bytes, e) =
        sent
          (record z {
            bf = record z.bf { decoded_buf = blit z.bf.decoded_buf z.bf.decoded_head bytes };
            rest = e;
          })
          i sz

    abbrev pub reopened : Zip E → ℕ → Option ℕ × E → Bool × Zip E
    reopened z i (fd, e) =
        let rf = record (file_at z.priv i) { fd = fd } in
        (is_open fd, record z { priv = put_file z.priv i rf; rest = e })
      where
        is_open : Option ℕ → Bool
        is_open none = false
        is_open (some n) = true

    abbrev pub send_from : Zip E → ℕ → ℕ → ℕ → Option ℕ × ℕ × Zip E
    send_from z i addr sz =
        let rf = file_at z.priv i in read_in z i addr sz (calls.read z.rest rf.fd sz)

    abbrev pub send_reopened : ℕ → ℕ → ℕ → Bool × Zip E → Option ℕ × ℕ × Zip E
    send_reopened i addr sz (false, z) = (none, addr, z)
    send_reopened i addr sz (true, z) = send_from z i addr sz

    -- `_send_file_chunk` of a file by its number
    unfoldable pub send_file : Zip E → ℕ → Option ℕ → Option ℕ × ℕ × Zip E
    send_file z addr none = faulty z
    send_file z addr (some i) =
        let rf = file_at z.priv i in
        let sz = min 128 (min (bf_dec_space_to_end z.bf) (sub32 rf.size rf.done)) in
        let first =
          send_reopened i addr sz
            (reopened z i (calls.open_file (calls.close z.rest rf.fd) rf.name false 0)) in
        let later = send_from z i addr sz in
        if sz == 0 then (some 0, addr, z) else if rf.done == 0 then first else later

    unfoldable pub send_file_chunk : Zip E → ℕ → Option ℕ × ℕ × Zip E
    unfolding send_file
    send_file_chunk z addr =
        let fi = image_at z.priv z.priv.send_image_index in
        send_file z addr (if is_sending_command z.priv.state then fi.dat_file else fi.bin_file)

-- `enum nzbf_type`
pub data FileType : Type 0 where
  command : FileType
  payload : FileType

abbrev pub image_of : ℕ → ℕ
image_of addr = addr / 2 ^ 30

unfoldable pub type_at : ℕ → FileType
type_at addr = if addr / 2 ^ 29 % 2 == 1 then payload else command

-- `nzbf_offset`: the three bits of NZ_FWFILE_DATA_IMAGE_MASK are the highest.
abbrev pub offset_of : ℕ → ℕ
offset_of addr = addr % 2 ^ 29

abbrev pub file_of : FirmwareImage → FileType → Option ℕ
file_of fi command = fi.dat_file
file_of fi payload = fi.bin_file

-- `nzbf_get_file_type_and_size`; `none` is for a null pointer.
abbrev sized : NzData → FileType → Option ℕ → Option (FileType × ℕ)
sized p t none = none
sized p t (some i) = some (t, (file_at p i).size)

unfoldable pub get_file_type_and_size : NzData → ℕ → Option (FileType × ℕ)
get_file_type_and_size p addr =
    sized p (type_at addr) (file_of (image_at p (image_of addr)) (type_at addr))

module _ {E : Type 0} (calls : FileCalls E) where
  -- The loop of `nzbf_calc_crc` for `n` rounds at most: the count of bytes never moves.
  pub crc_read : (E → ℕ → Option (Bool × ℕ × E)) → ℕ → Option (List ℕ) × E → Option (Bool × ℕ × E)
  crc_read next crc (none, e) = some (false, crc, e)
  crc_read next crc (some bytes, e) = next e (crc32_iteration bytes crc)

  unfoldable pub crc_loop : ℕ → Option ℕ → ℕ → E → ℕ → Option (Bool × ℕ × E)
  unfolding crc_read
  crc_loop zero fd len e crc = none
  crc_loop (suc n) fd len e crc =
      let sz = min 32 len in
      let round = crc_read (crc_loop n fd len) crc (calls.read e fd sz) in
      if len == 0 then some (true, crc, e) else round

  abbrev crc_closed : Option ℕ → Option (Bool × ℕ × E) → Option (Option ℕ × E)
  crc_closed fd none = none
  crc_closed fd (some (ok, crc, e)) =
      some (if ok then some (crc32_done crc) else none, calls.close e fd)

  abbrev crc_opened : ℕ → ℕ → Option ℕ × E → Option (Option ℕ × E)
  crc_opened n len (none, e) = some (none, e)
  crc_opened n len (some fd, e) = crc_closed (some fd) (crc_loop n (some fd) len e crc32_init)

  abbrev crc_of : ℕ → NzData → ℕ → E → Option ℕ → Option (Option ℕ × E)
  crc_of n p len e none = some (none, e)
  crc_of n p len e (some i) = crc_opened n len (calls.open_file e (file_at p i).name false 0)

  -- `nzbf_calc_crc`: `none` outside is for a loop that has not ended.
  unfoldable pub calc_crc : ℕ → NzData → ℕ → ℕ → E → Option (Option ℕ × E)
  calc_crc n p addr len e = crc_of n p len e (file_of (image_at p (image_of addr)) (type_at addr))

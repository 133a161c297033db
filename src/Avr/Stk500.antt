-- ===== src/Avr/Stk500.antt =====
-- The STK500 target, src/target/stk500.c: its commands. `E` is the state of the rest of the program, and
-- of the driver.
pub mod Target
pub mod Frames
use libdfu.Base.{
  ℕ, ◌+◌, ◌/◌, ◌%◌, Bool, true, false, ◌&&◌, Option, none, some, List, [], ◌∷◌, ◌++◌, ◌==◌,
  if◌then◌else◌, get_or,
}
use libdfu.Command.{Memory, store, CmdBuf, CmdDescr, CmdStatus, is_status_ok}
use libdfu.Command.Client.{out_buf, in_buf, check_byte, plain_descr}
use libdfu.Avr.{DeviceData, DeviceMem, Program}

-- The commands of `enum stk500_cmd` that are sent, STK_OK and STK_INSYNC, STK_CRC_EOP, and the parameters
-- that are asked for.
abbrev pub stk_get_sync : ℕ
stk_get_sync = 48

abbrev pub stk_get_parameter : ℕ
stk_get_parameter = 65

abbrev pub stk_set_device : ℕ
stk_set_device = 66

abbrev pub stk_set_device_ext : ℕ
stk_set_device_ext = 69

abbrev pub stk_leave_progmode : ℕ
stk_leave_progmode = 81

abbrev pub stk_load_address : ℕ
stk_load_address = 85

abbrev pub stk_universal : ℕ
stk_universal = 86

abbrev pub stk_prog_page : ℕ
stk_prog_page = 100

abbrev pub stk_ok : ℕ
stk_ok = 16

abbrev pub stk_insync : ℕ
stk_insync = 20

abbrev pub stk_crc_eop : ℕ
stk_crc_eop = 32

abbrev pub stk_sw_major : ℕ
stk_sw_major = 129

abbrev pub stk_sw_minor : ℕ
stk_sw_minor = 130

-- `cmd_buffer`; the bytes of a chunk and those that end it; the replies; `out` of `_get_param`.
abbrev pub place_cmd : ℕ
place_cmd = 1

abbrev pub place_data : ℕ
place_data = 2

abbrev pub place_end : ℕ
place_end = 3

abbrev pub place_sync : ℕ
place_sync = 4

abbrev pub place_result : ℕ
place_result = 5

abbrev pub place_out : ℕ
place_out = 6

abbrev pub place_param : ℕ
place_param = 7

abbrev pub place_get_sync : ℕ
place_get_sync = 8

-- The command that `curr_descr` points to: those of `_get_param`, of `_get_sync` and of its second try,
-- those with a reply of a sync byte and a result, the program page command for a chunk of a size, and
-- those of `_universal`.
pub data StkCommand : Type 0 where
  param_cmd : StkCommand
  sync_cmd : StkCommand
  resync_cmd : StkCommand
  result_cmd : ℕ → StkCommand
  page_cmd : ℕ → StkCommand
  universal_cmd : StkCommand

-- `struct stk500_data`; the state of the command is that of `Machine`.
pub record StkData (E : Type 0) : Type 0 where
  pub curr_descr : Option StkCommand
  pub curr_chunk_addr : ℕ
  pub rest : E

abbrev byte_at : Memory → ℕ → ℕ → ℕ
byte_at m place i = get_or (m place) i 0

-- `_check_get_param_reply`, which passes on the first byte
unfoldable pub check_param : Memory → Bool × Memory
check_param m =
    if byte_at m place_param 0 == stk_insync && (byte_at m place_param 2 == stk_ok)
    then (true, store m place_out (byte_at m place_param 0 ∷ []))
    else (false, m)

-- `_check_get_sync`
abbrev pub check_get_sync : Memory → Bool × Memory
check_get_sync m =
    (byte_at m place_get_sync 0 == stk_insync && (byte_at m place_get_sync 1 == stk_ok), m)

-- `_check_sync`, and `_check_set_device` and its like
abbrev pub sync_buf : CmdBuf
sync_buf = in_buf place_sync 1 300 (some (check_byte place_sync stk_insync))

abbrev pub result_buf : CmdBuf
result_buf = in_buf place_result 1 300 (some (check_byte place_result stk_ok))

module _ {E : Type 0} (program : Program E) where
  -- `_chunk_done`
  unfoldable pub stk_chunk_done : CmdStatus → StkData E → StkData E
  stk_chunk_done s d = record d {
    rest = program.file_chunk_done d.curr_chunk_addr (is_status_ok s) d.rest;
  }

  abbrev pub descr_of : StkCommand → CmdDescr (StkData E)
  descr_of param_cmd =
      plain_descr program.timeout_id
        (out_buf place_cmd 3 ∷ in_buf place_param 3 300 (some check_param) ∷ []) none
  descr_of sync_cmd =
      plain_descr program.timeout_id
        (out_buf place_cmd 2 ∷ in_buf place_get_sync 2 300 (some check_get_sync) ∷ []) none
  descr_of resync_cmd =
      plain_descr program.timeout_id (in_buf place_get_sync 2 300 (some check_get_sync) ∷ []) none
  descr_of (result_cmd len) =
      plain_descr program.timeout_id (out_buf place_cmd len ∷ sync_buf ∷ result_buf ∷ []) none
  descr_of (page_cmd sz) =
      plain_descr program.timeout_id
        (out_buf place_cmd 4
          ∷ out_buf place_data sz
          ∷ out_buf place_end 1
          ∷ sync_buf
          ∷ result_buf
          ∷ [])
        (some stk_chunk_done)
  descr_of universal_cmd =
      plain_descr program.timeout_id
        (out_buf place_cmd 6 ∷ sync_buf ∷ in_buf place_result 2 300 none ∷ []) none

-- The memory of a device, by what is written of one that is not there.
abbrev of_mem : {A : Type 0} → A → (DeviceMem → A) → Option DeviceMem → A
of_mem missing f none = missing
of_mem missing f (some mem) = f mem

abbrev pub length_of : Option DeviceMem → ℕ
length_of o = of_mem 0 (λ mem. mem.length) o

-- `struct stk500_set_device_cmd` as `_set_device` fills it; what it does not fill keeps its `old` bytes.
abbrev page_size_bytes : List ℕ → DeviceMem → List ℕ
page_size_bytes old flash =
    if flash.paged
    then flash.page_size / 256 % 256 ∷ flash.page_size % 256 ∷ []
    else get_or old 13 0 ∷ get_or old 14 0 ∷ []

abbrev flash_size_bytes : DeviceMem → List ℕ
flash_size_bytes flash =
    flash.length / 16777216 % 256
    ∷ flash.length / 65536 % 256
    ∷ flash.length / 256 % 256
    ∷ flash.length % 256
    ∷ []

unfoldable pub set_device_bytes : DeviceData → List ℕ → List ℕ
set_device_bytes dd old =
    (stk_set_device
      ∷ dd.devcode
      ∷ 0
      ∷ 0
      ∷ get_or old 4 0
      ∷ 1
      ∷ 1
      ∷ length_of dd.lock % 256
      ∷ (length_of dd.fuse + length_of dd.lfuse + length_of dd.hfuse + length_of dd.efuse) % 256
      ∷ of_mem 255 (λ flash. flash.readback.0) dd.flash
      ∷ of_mem 255 (λ flash. flash.readback.1) dd.flash
      ∷ of_mem 255 (λ eeprom. eeprom.readback.0) dd.eeprom
      ∷ of_mem 255 (λ eeprom. eeprom.readback.1) dd.eeprom
      ∷ [])
    ++ of_mem (0 ∷ 0 ∷ []) (page_size_bytes old) dd.flash
    ++ (length_of dd.eeprom / 256 % 256 ∷ length_of dd.eeprom % 256 ∷ [])
    ++ of_mem (0 ∷ 0 ∷ 0 ∷ 0 ∷ []) flash_size_bytes dd.flash
    ++ (stk_crc_eop ∷ [])

-- `struct stk500_set_extparams_cmd`
unfoldable pub set_extparams_bytes : DeviceData → ℕ → List ℕ
set_extparams_bytes dd n_extp =
    stk_set_device_ext
    ∷ (n_extp + 1)
    ∷ of_mem 0 (λ eeprom. eeprom.page_size % 256) dd.eeprom
    ∷ dd.pagel
    ∷ dd.bs2
    ∷ dd.rd
    ∷ stk_crc_eop
    ∷ []

-- `struct stk500_load_address_cmd`, on a host that stores the low byte of a word first; the address has
-- 16 bits.
unfoldable pub load_address_bytes : ℕ → List ℕ
load_address_bytes addr =
    stk_load_address ∷ addr % 65536 / 2 % 256 ∷ addr % 65536 / 2 / 256 ∷ stk_crc_eop ∷ []

-- `struct stk500_prog_page_cmd`
unfoldable pub prog_page_bytes : ℕ → List ℕ
prog_page_bytes sz = stk_prog_page ∷ sz / 256 % 256 ∷ sz % 256 ∷ 70 ∷ []

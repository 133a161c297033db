-- ===== src/Avr/Isp.antt =====
-- The AVR ISP target, src/target/avrisp.c: a page is loaded byte by byte over SPI, then written. `E` is
-- the state of the rest of the program, and of the driver.
pub mod Page
use Prim.Native.Nat.{bit_and}
use libdfu.Base.{
  ℕ, zero, suc, ◌+◌, ◌-◌, ◌/◌, ◌%◌, Bool, true, false, not, ◌&&◌, ◌||◌, Option, none, some, List,
  [], ◌∷◌, ◌==◌, leb, if◌then◌else◌, get_or, length, drop, take,
}
use libdfu.Base.Word.{add32, sub32}
use libdfu.Interface.{IfaceOps, Interface, has, interface_target_reset, interface_target_run}
use libdfu.Command.{Memory, CmdDescr, CmdStatus, Machine, is_status_ok, is_negative}
use libdfu.Command.Engine.{cmd_start, cmd_do_sync, cmd_on_interface_event, cmd_on_idle}
use libdfu.Command.Client.{
  out_buf, out_in_buf, check_byte, plain_descr, data_of, with_data, with_place,
}
use libdfu.Avr.{DeviceData, DeviceMem, Program}

-- `cmd_buffer`, with what its second and its fourth byte begin as places of their own; the replies;
-- `poll_request` and what its third byte begins.
abbrev pub place_cmd : ℕ
place_cmd = 1

abbrev place_cmd_1 : ℕ
place_cmd_1 = 2

abbrev place_cmd_3 : ℕ
place_cmd_3 = 3

abbrev place_reply : ℕ
place_reply = 4

abbrev place_poll : ℕ
place_poll = 5

abbrev place_poll_2 : ℕ
place_poll_2 = 6

-- The command that `curr_descr` points to.
pub data IspCommand : Type 0 where
  sync_cmd : IspCommand
  page_cmd : IspCommand
  byte_cmd : IspCommand
  erase_cmd : IspCommand

-- `struct avrisp_data`; the state of the command is that of `Machine`.
pub record IspData (E : Type 0) : Type 0 where
  pub curr_descr : Option IspCommand
  pub curr_chunk_addr : ℕ
  pub curr_written : ℕ
  pub to_write : ℕ
  pub page_buf : List ℕ
  pub rest : E

-- `_check_page_written`
abbrev check_page_written : Memory → Bool × Memory
check_page_written m = (get_or (m place_reply) 0 0 % 2 == 0, m)

abbrev pub page_size : DeviceData → ℕ
page_size dd = of_flash dd.flash
  where
    of_flash : Option DeviceMem → ℕ
    of_flash none = 0
    of_flash (some flash) = flash.page_size

-- The mask of the words of a page, the word in its page where byte `k` of a chunk goes, which half of it
-- that is, and the first word of the page.
unfoldable pub word_mask : DeviceData → ℕ
word_mask dd = sub32 (page_size dd / 2) 1

unfoldable pub word_of : DeviceData → ℕ → ℕ → ℕ
unfolding word_mask
word_of dd chunk_addr k = bit_and (add32 chunk_addr k / 2) (word_mask dd)

unfoldable pub high_half : ℕ → Bool
high_half k = k % 2 == 1

-- `address & mask`, where the mask has the bits that `word_mask` has not
unfoldable pub page_word : DeviceData → ℕ → ℕ
unfolding word_mask
page_word dd chunk_addr = chunk_addr / 2 - bit_and (chunk_addr / 2) (word_mask dd)

-- What `_load_byte` and `_write_page` put into `cmd_buffer`.
abbrev pub load_bytes : DeviceData → ℕ → ℕ → ℕ → List ℕ
load_bytes dd chunk_addr k byte =
    (if high_half k then 72 else 64)
    ∷ word_of dd chunk_addr k / 256 % 256
    ∷ word_of dd chunk_addr k % 256
    ∷ byte
    ∷ []

abbrev pub page_bytes : DeviceData → ℕ → List ℕ
page_bytes dd chunk_addr =
    76 ∷ page_word dd chunk_addr / 256 % 256 ∷ page_word dd chunk_addr % 256 ∷ 0 ∷ []

module _ {E : Type 0} (program : Program E) where
  -- `_chunk_done`
  unfoldable pub isp_chunk_done : CmdStatus → IspData E → IspData E
  isp_chunk_done s d = record d {
    rest = program.file_chunk_done d.curr_chunk_addr (is_status_ok s) d.rest;
  }

  -- The commands of `_get_sync`, `_write_page`, `_load_byte` and `avrisp_target_erase_all`.
  abbrev pub descr_of : IspCommand → CmdDescr (IspData E)
  descr_of sync_cmd =
      plain_descr program.timeout_id
        (out_buf place_cmd 1
          ∷ record (out_in_buf place_cmd_1 place_reply 1 (some (check_byte place_reply 83))) {
            timeout = 500;
          }
          ∷ out_buf place_cmd_3 1
          ∷ [])
        none
  descr_of page_cmd =
      plain_descr program.timeout_id
        (out_buf place_cmd 4
          ∷ out_buf place_poll 2
          ∷ record (out_in_buf place_poll_2 place_reply 1 (some check_page_written)) {
            retry_on_error = true;
            next_on_retry = 1;
          }
          ∷ [])
        (some isp_chunk_done)
  descr_of byte_cmd = plain_descr program.timeout_id (out_buf place_cmd 4 ∷ []) none
  descr_of erase_cmd = plain_descr program.timeout_id (out_buf place_cmd 4 ∷ []) none

  module _ (ops : IfaceOps (IspData E)) (dd : DeviceData) where
    -- `avrisp_init` with parameters or without
    unfoldable pub isp_init :
        Bool → Machine (IspData E) → Interface (IspData E) → Bool × Machine (IspData E)
    isp_init has_pars m i = (
      has_pars,
      record m {
        interface = record i {
          device = record (data_of m) {
            curr_descr = none;
            curr_chunk_addr = 0;
            curr_written = 0;
            to_write = 0;
            page_buf = [];
          };
        };
      },
    )

    abbrev with_cmd : Machine (IspData E) → List ℕ → Machine (IspData E)
    with_cmd m bytes =
        with_place (with_place (with_place m place_cmd bytes) place_cmd_1 (drop 1 bytes))
          place_cmd_3 (drop 3 bytes)

    abbrev with_descr : Machine (IspData E) → Option IspCommand → Machine (IspData E)
    with_descr m cmd = with_data m (record (data_of m) { curr_descr = cmd })

    -- `_write_page`; false is for a negative result.
    unfoldable pub write_page : Machine (IspData E) → Bool × Machine (IspData E)
    write_page m =
        let polled =
          with_place (with_place m place_poll (240 ∷ 0 ∷ 0 ∷ 0 ∷ [])) place_poll_2 (0 ∷ 0 ∷ []) in
        cmd_start ops (descr_of page_cmd)
          (with_descr (with_cmd polled (page_bytes dd (data_of m).curr_chunk_addr)) (some page_cmd))

    abbrev chunk_failed : Machine (IspData E) → Machine (IspData E)
    chunk_failed m = with_data m (record (data_of m) {
      rest = program.file_chunk_done (data_of m).curr_chunk_addr false (data_of m).rest;
    })

    -- What follows the last byte: the page is written.
    unfoldable pub page_loaded : Machine (IspData E) → Machine (IspData E)
    unfolding write_page
    page_loaded m =
        let (ok, m') = write_page m in
        let done = with_data m' (record (data_of m') { to_write = 0 }) in
        if ok then done else chunk_failed done

    -- `_load_byte` once the byte has been sent; false is for a negative result.
    unfoldable pub byte_loaded : Machine (IspData E) → Bool → Bool × Machine (IspData E)
    unfolding page_loaded
    byte_loaded m false =
        let d = data_of m in
        let cleared =
          with_data m (record d { curr_descr = none; to_write = 0; curr_written = 0 }) in
        if d.curr_written == 1 then (false, cleared) else (true, chunk_failed cleared)
    byte_loaded m true =
        let loaded = page_loaded m in
        if leb (data_of m).to_write (data_of m).curr_written then (true, loaded) else (true, m)

    module _ (fuel : ℕ) (idle : Machine (IspData E) → Bool × Machine (IspData E)) where
      abbrev sync : Machine (IspData E) → IspCommand → Option (Bool × Machine (IspData E))
      sync m cmd = cmd_do_sync ops (descr_of cmd) fuel idle m

      pub byte_synced : Option (Bool × Machine (IspData E)) → Option (Bool × Machine (IspData E))
      byte_synced none = none
      byte_synced (some (started, m)) = some (byte_loaded m (started && not (is_negative m.status)))

      -- `_load_byte`
      unfoldable pub load_byte : Machine (IspData E) → Option (Bool × Machine (IspData E))
      unfolding byte_synced
      load_byte m =
          let d = data_of m in
          let bytes =
            load_bytes dd d.curr_chunk_addr d.curr_written (get_or d.page_buf d.curr_written 0) in
          let counted = with_data m (record d { curr_written = d.curr_written + 1 }) in
          byte_synced (sync (with_cmd counted bytes) byte_cmd)

      -- `avrisp_chunk_available`
      unfoldable pub isp_chunk_available :
          Machine (IspData E) → ℕ → List ℕ → Option (Bool × Machine (IspData E))
      unfolding load_byte
      isp_chunk_available m address buf =
          let noted = with_data m (record (data_of m) {
            curr_chunk_addr = address;
            curr_written = 0;
            to_write = length buf;
            page_buf = buf;
          }) in
          let loaded = load_byte noted in if has dd.flash then loaded else some (false, m)

      -- `_get_sync`; false is for a negative result.
      unfoldable pub get_sync : Machine (IspData E) → Option (Bool × Machine (IspData E))
      get_sync m =
          synced
            (sync (with_cmd (with_descr m (some sync_cmd)) (take 4 dd.enter_progmode)) sync_cmd)
        where
          synced : Option (Bool × Machine (IspData E)) → Option (Bool × Machine (IspData E))
          synced none = none
          synced (some (started, m')) = some (started && not (is_negative m'.status), m')

      -- `dfu_udelay`
      abbrev udelay : Machine (IspData E) → ℕ → Bool × Machine (IspData E)
      udelay m us = delayed program.udelay
        where
          delayed : Option (ℕ → E → E) → Bool × Machine (IspData E)
          delayed none = (false, m)
          delayed (some f) =
              (true, with_data m (record (data_of m) { rest = f us (data_of m).rest }))

      -- `avrisp_target_erase_all`
      unfoldable pub isp_erase_all : Machine (IspData E) → Option (Bool × Machine (IspData E))
      isp_erase_all m =
          erased (sync (with_cmd (with_descr m (some erase_cmd)) (take 4 dd.chip_erase)) erase_cmd)
        where
          erased : Option (Bool × Machine (IspData E)) → Option (Bool × Machine (IspData E))
          erased none = none
          erased (some (started, m')) =
              let delayed = udelay m' dd.chip_erase_delay in
              if started && not (is_negative m'.status) then some delayed else some (false, m')

      -- The reset of a target that has one; false is for a negative value.
      abbrev reset_target : Machine (IspData E) → Bool × Machine (IspData E)
      reset_target m =
          let (r, i) = interface_target_reset ops m.interface in
          if has ops.target_reset then (has r, record m { interface = i }) else (true, m)

      pub after_get_sync :
          (Machine (IspData E) → Option (Bool × Machine (IspData E)))
          → Option (Bool × Machine (IspData E))
          → Option (Bool × Machine (IspData E))
      after_get_sync next none = none
      after_get_sync next (some (true, m)) = some (true, m)
      after_get_sync next (some (false, m)) = next (udelay m 1000).1

      -- The rounds of `avrisp_reset_and_sync`, `n` of them left.
      pub sync_rounds : ℕ → Machine (IspData E) → Option (Bool × Machine (IspData E))
      sync_rounds zero m = some (false, m)
      sync_rounds (suc n) m =
          let (ok, m') = reset_target m in
          let round = after_get_sync (sync_rounds n) (get_sync m') in
          if ok then round else some (false, m')

      unfoldable pub isp_reset_and_sync : Machine (IspData E) → Option (Bool × Machine (IspData E))
      unfolding sync_rounds after_get_sync
      isp_reset_and_sync m = sync_rounds 50 m

      -- `avrisp_on_idle`
      unfoldable pub isp_on_idle : Machine (IspData E) → Option (Bool × Machine (IspData E))
      unfolding load_byte
      isp_on_idle m = idle_of (data_of m).curr_descr
        where
          idle_of : Option IspCommand → Option (Bool × Machine (IspData E))
          idle_of none = some (true, m)
          idle_of (some cmd) =
              let loading = load_byte m in
              let running = some (true, (cmd_on_idle ops (descr_of cmd) m).1) in
              if (data_of m).to_write == 0 then running else loading

    -- `avrisp_run`
    unfoldable pub isp_run : Machine (IspData E) → Bool × Machine (IspData E)
    isp_run m =
        let (ran, i) = interface_target_run ops m.interface in
        if has ops.target_run then (has ran, record m { interface = i }) else (false, m)

    -- `avrisp_on_interface_event`
    unfoldable pub isp_on_interface_event : Machine (IspData E) → Machine (IspData E)
    isp_on_interface_event m = event_of (data_of m).curr_descr
      where
        event_of : Option IspCommand → Machine (IspData E)
        event_of none = m
        event_of (some cmd) = cmd_on_interface_event ops (descr_of cmd) m

-- `avrisp_get_write_chunk_size`
abbrev pub isp_write_chunk_size : ℕ
isp_write_chunk_size = 128

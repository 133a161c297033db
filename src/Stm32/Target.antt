-- ===== src/Stm32/Target.antt =====
-- The operations of the STM32 target, src/target/stm32-usart.c, on the command engine. `Machine` is the
-- target with the command that it runs; what is private to it is the state of the driver.
use libdfu.Base.{
  ℕ, zero, suc, ◌-◌, ◌%◌, Bool, true, false, not, ◌&&◌, ◌||◌, Option, none, some, List, [], ◌∷◌,
  ◌==◌, ltb, if◌then◌else◌, get_or, length,
}
use libdfu.Interface.{IfaceOps, Interface, has, interface_target_reset, interface_target_run}
use libdfu.Timeouts.{update}
use libdfu.Command.{status_ok, is_status_ok, is_negative, store, Machine}
use libdfu.Command.Engine.{cmd_start, cmd_do_sync, cmd_on_interface_event, cmd_on_idle}
use libdfu.Stm32.{
  EraseNeed, not_mapped, not_flash, too_many, all_erased, needed, erase_need, max_nsectors_erase,
  fini_areas,
}
use libdfu.Stm32.Commands.{
  Stm32Command, Stm32Data, Program, erase_cmd, write_cmd, read_cmd, reply_cmd, sync_cmd, descr_of,
  notify, erase_bytes, be32, le32, place_cmdb, place_addr, place_nbytes, place_sectors, place_data,
  place_reply,
}

module _ {E : Type 0} (ops : IfaceOps (Stm32Data E)) (program : Program E) where
  abbrev pub data_of : Machine (Stm32Data E) → Stm32Data E
  data_of m = m.interface.device

  abbrev pub with_data : Machine (Stm32Data E) → Stm32Data E → Machine (Stm32Data E)
  with_data m d = record m { interface = record m.interface { device = d } }

  abbrev with_cmd : Machine (Stm32Data E) → List ℕ → Machine (Stm32Data E)
  with_cmd m bytes = record m { memory = store m.memory place_cmdb bytes }

  abbrev with_place : Machine (Stm32Data E) → ℕ → List ℕ → Machine (Stm32Data E)
  with_place m place bytes = record m { memory = store m.memory place bytes }

  -- The command becomes the current one, and is started.
  abbrev start : Machine (Stm32Data E) → Stm32Command → Bool × Machine (Stm32Data E)
  start m cmd =
      cmd_start ops (descr_of program cmd)
        (with_data m (record (data_of m) { curr_descr = some cmd }))

  -- `start_erasing`; false is for -1.
  unfoldable pub start_erasing : Machine (Stm32Data E) → ℕ → List ℕ → Bool × Machine (Stm32Data E)
  start_erasing m area sectors =
      let d = data_of m in
      let ext = d.extended_memory_erase in
      let bytes = erase_bytes ext sectors in
      let noted = with_data m (record d { to_be_erased = sectors; erase_area = area }) in
      let ready =
        with_place (with_cmd noted (if ext then 68 ∷ 187 ∷ [] else 67 ∷ 188 ∷ [])) place_sectors
          bytes in
      let started = start ready (erase_cmd (length bytes)) in
      if ltb max_nsectors_erase (length sectors) then (false, m) else started

  unfoldable pub erase_as_needed : Machine (Stm32Data E) → EraseNeed → Bool × Machine (Stm32Data E)
  erase_as_needed m not_mapped = (false, m)
  erase_as_needed m not_flash = (false, m)
  erase_as_needed m too_many = (false, with_data m (notify program (data_of m)))
  erase_as_needed m all_erased = (false, m)
  erase_as_needed m (needed area sectors) =
      let (started, m') = start_erasing m area sectors in
      if started then (true, m') else (false, with_data m' (notify program (data_of m')))

  -- `stm32_usart_must_erase`
  unfoldable pub must_erase : Machine (Stm32Data E) → ℕ → ℕ → Bool × Machine (Stm32Data E)
  unfolding erase_as_needed start_erasing
  must_erase m addr l = erase_as_needed m (erase_need (data_of m).areas addr l)

  -- `stm32_usart_chunk_available` up to the start of its command
  abbrev pub write_ready : Machine (Stm32Data E) → ℕ → List ℕ → Machine (Stm32Data E)
  write_ready m address buf =
      let noted = with_data m (record (data_of m) { curr_chunk_addr = address }) in
      let addressed = with_place (with_cmd noted (49 ∷ 206 ∷ [])) place_addr (be32 address) in
      with_place (with_place addressed place_nbytes ((length buf - 1) % 256 ∷ [])) place_data buf

  unfoldable pub chunk_available : Machine (Stm32Data E) → ℕ → List ℕ → Bool × Machine (Stm32Data E)
  chunk_available m address buf =
      let sz = length buf in
      let started = start (write_ready m address buf) (write_cmd sz) in
      if ltb 256 sz then (false, m) else started

  module _ (fuel : ℕ) (idle : Machine (Stm32Data E) → Bool × Machine (Stm32Data E)) where
    -- The current command, run to its end by the idle loop.
    abbrev sync : Machine (Stm32Data E) → Stm32Command → Option (Bool × Machine (Stm32Data E))
    sync m cmd =
        cmd_do_sync ops (descr_of program cmd) fuel idle
          (with_data m (record (data_of m) { curr_descr = some cmd }))

    -- `stm32_usart_read_memory`: the address goes out low byte first, the number of bytes is not set, and
    -- one byte less than asked for is read. A first component of false is for an early -1.
    unfoldable pub read_memory :
        Machine (Stm32Data E) → ℕ → ℕ → Option (Bool × Machine (Stm32Data E))
    read_memory m addr sz =
        let ready = with_place (with_cmd m (17 ∷ 238 ∷ [])) place_addr (le32 addr) in
        let read = sync ready (read_cmd sz) in
        if ltb 256 sz || not (addr % 4 == 0) then some (false, m) else read

    abbrev get_cmd : Machine (Stm32Data E) → Option (Bool × Machine (Stm32Data E))
    get_cmd m = sync (with_cmd m (0 ∷ 255 ∷ [])) (reply_cmd 14)

    abbrev gid_cmd : Machine (Stm32Data E) → Option (Bool × Machine (Stm32Data E))
    gid_cmd m = sync (with_cmd m (2 ∷ 253 ∷ [])) (reply_cmd 4)

    abbrev reply_byte : Machine (Stm32Data E) → ℕ → ℕ
    reply_byte m i = get_or (m.memory place_reply) i 0

    pub device_probed :
        Machine (Stm32Data E) → Option (E → Bool × E) → Option (Bool × Machine (Stm32Data E))
    device_probed m none = some (true, m)
    device_probed m (some probe) =
        let (ok, rest) = probe (data_of m).rest in
        some (ok, with_data m (record (data_of m) { rest = rest }))

    -- After `gid_cmd`: the part id has to be the expected one.
    pub probe_gid : Option (Bool × Machine (Stm32Data E)) → Option (Bool × Machine (Stm32Data E))
    probe_gid none = none
    probe_gid (some (started, m)) =
        let known =
          reply_byte m 1 == (data_of m).part_id.0 && (reply_byte m 2 == (data_of m).part_id.1) in
        let probed = device_probed m program.device_probe in
        if not started || is_negative m.status || not known then some (false, m) else probed

    -- After `get_cmd`: the flags of the target.
    pub probe_get : Option (Bool × Machine (Stm32Data E)) → Option (Bool × Machine (Stm32Data E))
    probe_get none = none
    probe_get (some (started, m)) =
        let d = data_of m in
        let flagged = with_data m (record d {
          extended_memory_erase = d.extended_memory_erase || (reply_byte m 8 == 68);
          double_nak = d.double_nak || (reply_byte m 1 == 49);
        }) in
        let probed = probe_gid (gid_cmd flagged) in
        if not started || is_negative m.status then some (false, m) else probed

    -- `stm32_usart_probe`
    unfoldable pub usart_probe : Machine (Stm32Data E) → Option (Bool × Machine (Stm32Data E))
    unfolding probe_get probe_gid device_probed
    usart_probe m = probe_get (get_cmd m)

    -- The reset of a target that has one; false is for a negative value.
    abbrev reset_target : Machine (Stm32Data E) → Bool × Machine (Stm32Data E)
    reset_target m =
        let (r, i) = interface_target_reset ops m.interface in
        if has ops.target_reset then (has r, record m { interface = i }) else (true, m)

    pub after_sync :
        (Machine (Stm32Data E) → Option (Bool × Machine (Stm32Data E)))
        → Option (Bool × Machine (Stm32Data E))
        → Option (Bool × Machine (Stm32Data E))
    after_sync next none = none
    after_sync next (some (started, m)) =
        let later = next m in if started && is_status_ok m.status then some (true, m) else later

    -- The rounds of `stm32_usart_reset_and_sync`, `n` of them left.
    pub sync_rounds : ℕ → Machine (Stm32Data E) → Option (Bool × Machine (Stm32Data E))
    sync_rounds zero m = some (false, m)
    sync_rounds (suc n) m =
        let (ok, m') = reset_target m in
        let round = after_sync (sync_rounds n) (sync (with_cmd m' (127 ∷ [])) sync_cmd) in
        if ok then round else some (false, m')

    unfoldable pub reset_and_sync : Machine (Stm32Data E) → Option (Bool × Machine (Stm32Data E))
    unfolding sync_rounds after_sync
    reset_and_sync m = sync_rounds 5 m

  -- `stm32_usart_run`
  unfoldable pub usart_run : Machine (Stm32Data E) → Bool × Machine (Stm32Data E)
  usart_run m =
      let (ran, i) = interface_target_run ops m.interface in
      let (restarted, j) = interface_target_reset ops m.interface in
      if has ops.target_run
      then (has ran, record m { interface = i })
      else if has ops.target_reset
      then (has restarted, record m { interface = j })
      else (false, m)

  pub event_of : Machine (Stm32Data E) → Option Stm32Command → Machine (Stm32Data E)
  event_of m none = m
  event_of m (some cmd) = cmd_on_interface_event ops (descr_of program cmd) m

  unfoldable pub usart_on_interface_event : Machine (Stm32Data E) → Machine (Stm32Data E)
  unfolding event_of
  usart_on_interface_event m = event_of m (data_of m).curr_descr

  pub idle_of : Machine (Stm32Data E) → Option Stm32Command → Machine (Stm32Data E)
  idle_of m none = m
  idle_of m (some cmd) = (cmd_on_idle ops (descr_of program cmd) m).1

  unfoldable pub usart_on_idle : Machine (Stm32Data E) → Machine (Stm32Data E)
  unfolding idle_of
  usart_on_idle m = idle_of m (data_of m).curr_descr

  -- `stm32_usart_init` for a target with parameters or without; what was private to it is cleared.
  unfoldable pub usart_init :
      Bool → Machine (Stm32Data E) → Interface (Stm32Data E) → Bool × Machine (Stm32Data E)
  usart_init has_pars m i = (
    has_pars,
    record m {
      status = status_ok;
      cmdbuf_index = 0;
      received = 0;
      timers = record m.timers { values = update m.timers.values program.timeout_id 0 };
      interface = record i {
        device = record (data_of m) {
          extended_memory_erase = false;
          double_nak = false;
          curr_chunk_addr = 0;
          curr_descr = none;
          to_be_erased = [];
          erase_area = 0;
        };
      };
    },
  )

  -- `stm32_usart_fini`
  unfoldable pub usart_fini : Machine (Stm32Data E) → Machine (Stm32Data E)
  usart_fini m = with_data m (record (data_of m) { areas = fini_areas (data_of m).areas })

-- `stm32_usart_get_write_chunk_size` and `stm32_usart_ignore_chunk_alignment`
abbrev pub write_chunk_size : ℕ
write_chunk_size = 256

abbrev pub ignore_chunk_alignment : Bool
ignore_chunk_alignment = true

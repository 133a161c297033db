-- ===== src/Avr/Stk500/Target.antt =====
-- The operations of the STK500 target, src/target/stk500.c, on the command engine.
use libdfu.Base.{
  and_then, ℕ, zero, suc, Bool, true, false, not, ◌&&◌, ◌||◌, Option, none, some, List, [], ◌∷◌,
  ◌++◌, ◌==◌, ltb, if◌then◌else◌, get_or, length, take, drop,
}
use libdfu.Interface.{IfaceOps, Interface, has, interface_target_reset}
use libdfu.Command.{
  CmdStatus, Machine, is_status_ok, is_negative, status_ok, status_error, status_timeout,
  status_initialized, status_interface_ready, status_waiting, status_retrying,
}
use libdfu.Command.Engine.{cmd_start, cmd_do_sync, cmd_on_interface_event, cmd_on_idle}
use libdfu.Command.Client.{data_of, with_data, with_place}
use libdfu.Avr.{DeviceData, Program}
use libdfu.Avr.Stk500.{
  StkCommand, StkData, param_cmd, sync_cmd, resync_cmd, result_cmd, page_cmd, universal_cmd,
  descr_of, set_device_bytes, set_extparams_bytes, load_address_bytes, prog_page_bytes, place_cmd,
  place_data, place_end, place_out, stk_get_sync, stk_get_parameter, stk_leave_progmode,
  stk_universal, stk_crc_eop, stk_sw_major, stk_sw_minor,
}

abbrev is_timeout : CmdStatus → Bool
is_timeout status_timeout = true
is_timeout status_ok = false
is_timeout status_error = false
is_timeout status_initialized = false
is_timeout status_interface_ready = false
is_timeout status_waiting = false
is_timeout status_retrying = false

module _ {E : Type 0} (program : Program E) (ops : IfaceOps (StkData E)) (dd : DeviceData) where
  -- The first bytes of `cmd_buffer`
  abbrev with_cmd : Machine (StkData E) → List ℕ → Machine (StkData E)
  with_cmd m bytes = with_place m place_cmd (bytes ++ drop (length bytes) (m.memory place_cmd))

  abbrev with_descr : Machine (StkData E) → StkCommand → Machine (StkData E)
  with_descr m cmd = with_data m (record (data_of m) { curr_descr = some cmd })

  -- `stk500_init` with parameters or without
  unfoldable pub stk_init :
      Bool → Machine (StkData E) → Interface (StkData E) → Bool × Machine (StkData E)
  stk_init has_pars m i = (
    has_pars,
    record m {
      interface = record i {
        device = record (data_of m) { curr_descr = none; curr_chunk_addr = 0 };
      };
    },
  )

  -- `_load_address` up to the start of its command
  abbrev pub address_ready : Machine (StkData E) → ℕ → Machine (StkData E)
  address_ready m addr = with_descr (with_cmd m (load_address_bytes addr)) (result_cmd 4)

  -- `stk500_chunk_available` from the end of its loop up to the start of its command
  abbrev pub page_ready : ℕ → List ℕ → Machine (StkData E) → Machine (StkData E)
  page_ready address buf m =
      let ready =
        with_place (with_place (with_cmd m (prog_page_bytes (length buf))) place_data buf) place_end
          (stk_crc_eop ∷ []) in
      with_data ready (record (data_of ready) {
        curr_chunk_addr = address;
        curr_descr = some (page_cmd (length buf));
      })

  module _ (fuel : ℕ) (idle : Machine (StkData E) → Bool × Machine (StkData E)) where
    abbrev sync : Machine (StkData E) → StkCommand → Option (Bool × Machine (StkData E))
    sync m cmd = cmd_do_sync ops (descr_of program cmd) fuel idle m

    abbrev signed : Option (Bool × Machine (StkData E)) → Option (Bool × Machine (StkData E))
    signed none = none
    signed (some (started, m)) = some (started && not (is_negative m.status), m)

    -- A command with these first bytes in `cmd_buffer`, whose status is the result.
    abbrev run_cmd : Machine (StkData E) → List ℕ → StkCommand → Option (Bool × Machine (StkData E))
    run_cmd m bytes cmd = signed (sync (with_descr (with_cmd m bytes) cmd) cmd)

    -- `_get_param`; what came is at `place_out`.
    abbrev pub get_param : Machine (StkData E) → ℕ → Option (Bool × Machine (StkData E))
    get_param m param = run_cmd m (stk_get_parameter ∷ param ∷ stk_crc_eop ∷ []) param_cmd

    abbrev out_of : Machine (StkData E) → ℕ
    out_of m = get_or (m.memory place_out) 0 0

    -- `do ... while` of `_get_sync`: the reply is awaited until the wait times out, for `n` times at most.
    pub drained :
        (Machine (StkData E) → Option (Machine (StkData E)))
        → Option (Bool × Machine (StkData E))
        → Option (Machine (StkData E))
    drained again none = none
    drained again (some (started, m)) =
        let more = again m in if started && is_timeout m.status then some m else more

    pub drain : ℕ → Machine (StkData E) → Option (Machine (StkData E))
    drain zero m = none
    drain (suc n) m = drained (drain n) (sync m resync_cmd)

    -- A round of `_get_sync` after its command.
    pub sync_again :
        (Machine (StkData E) → Option (Bool × Machine (StkData E)))
        → Option (Machine (StkData E))
        → Option (Bool × Machine (StkData E))
    sync_again next none = none
    sync_again next (some m) = next m

    pub sync_tried :
        ℕ
        → (Machine (StkData E) → Option (Bool × Machine (StkData E)))
        → Option (Bool × Machine (StkData E))
        → Option (Bool × Machine (StkData E))
    sync_tried drains next none = none
    sync_tried drains next (some (started, m)) =
        let later = next m in
        let resynced = sync_again next (drain drains m) in
        if started && is_status_ok m.status
        then some (true, m)
        else if started && is_timeout m.status
        then later
        else resynced

    pub sync_rounds : ℕ → ℕ → Machine (StkData E) → Option (Bool × Machine (StkData E))
    sync_rounds drains zero m = some (false, m)
    sync_rounds drains (suc n) m =
        sync_tried drains (sync_rounds drains n)
          (sync (with_descr (with_cmd m (stk_get_sync ∷ stk_crc_eop ∷ [])) sync_cmd) sync_cmd)

    -- `_get_sync`, with MAX_SYNC_ATTEMPTS
    unfoldable pub stk_get_sync_reply :
        ℕ → Machine (StkData E) → Option (Bool × Machine (StkData E))
    unfolding sync_rounds sync_tried sync_again drain drained
    stk_get_sync_reply drains m = sync_rounds drains 8 m

    abbrev old_cmd : Machine (StkData E) → List ℕ
    old_cmd m = m.memory place_cmd

    -- `*n_extp` of `_set_device`
    abbrev pub extparams : ℕ → ℕ → ℕ
    extparams maj min = if ltb 1 maj || (maj == 1 && ltb 10 min) then 4 else 3

    -- `_set_device`, and what goes on with the number of extended parameters
    unfoldable pub set_device :
        Machine (StkData E)
        → (ℕ → Machine (StkData E) → Option (Bool × Machine (StkData E)))
        → Option (Bool × Machine (StkData E))
    set_device m next = and_then (get_param m stk_sw_major) (λ m1.
        and_then (get_param m1 stk_sw_minor) (λ m2.
          and_then (run_cmd m2 (set_device_bytes dd (old_cmd m2)) (result_cmd 22))
            (next (extparams (out_of m1) (out_of m2)))))

    -- `_set_extparams`
    abbrev pub set_extparams : ℕ → Machine (StkData E) → Option (Bool × Machine (StkData E))
    set_extparams n_extp m = run_cmd m (set_extparams_bytes dd n_extp) (result_cmd 7)

    -- `_universal`, whose result is not asked for
    abbrev pub universal : Machine (StkData E) → List ℕ → Option (Bool × Machine (StkData E))
    universal m cmd = run_cmd m (stk_universal ∷ (take 4 cmd ++ (stk_crc_eop ∷ []))) universal_cmd

    -- `stk500_target_erase_all` and `_enter_progmode`
    abbrev pub stk_erase_all : Machine (StkData E) → Option (Bool × Machine (StkData E))
    stk_erase_all m = universal m dd.chip_erase

    abbrev pub enter_progmode : Machine (StkData E) → Option (Bool × Machine (StkData E))
    enter_progmode m = universal m dd.enter_progmode

    -- The reset of a target that has one; false is for a negative value.
    abbrev reset_target : Machine (StkData E) → Option (Bool × Machine (StkData E))
    reset_target m =
        let (r, i) = interface_target_reset ops m.interface in
        if has ops.target_reset then some (has r, record m { interface = i }) else some (true, m)

    -- `stk500_reset_and_sync`
    unfoldable pub stk_reset_and_sync :
        ℕ → Machine (StkData E) → Option (Bool × Machine (StkData E))
    unfolding set_device
    stk_reset_and_sync drains m = and_then (reset_target m) (λ m1.
        and_then (stk_get_sync_reply drains m1) (λ m2. set_device m2 (λ n_extp m3.
          let extended = and_then (set_extparams n_extp m3) enter_progmode in
          if n_extp == 0 then enter_progmode m3 else extended)))

    -- `_load_address`
    abbrev pub load_address : Machine (StkData E) → ℕ → Option (Bool × Machine (StkData E))
    load_address m addr = sync (address_ready m addr) (result_cmd 4)

    -- The loop of `stk500_chunk_available`: whether the address could be loaded does not matter then.
    pub after_reset :
        (Machine (StkData E) → Option (Machine (StkData E)))
        → Option (Bool × Machine (StkData E))
        → Option (Machine (StkData E))
    after_reset next none = none
    after_reset next (some (ok, m)) = next m

    pub address_tried :
        ℕ
        → (Machine (StkData E) → Option (Machine (StkData E)))
        → Option (Bool × Machine (StkData E))
        → Option (Machine (StkData E))
    address_tried drains next none = none
    address_tried drains next (some (started, m)) =
        let later = after_reset next (stk_reset_and_sync drains m) in
        if started && is_status_ok m.status then some m else later

    pub address_rounds : ℕ → ℕ → ℕ → Machine (StkData E) → Option (Machine (StkData E))
    address_rounds drains zero addr m = some m
    address_rounds drains (suc n) addr m =
        address_tried drains (address_rounds drains n addr) (load_address m addr)

    abbrev program_page : ℕ → List ℕ → Machine (StkData E) → Bool × Machine (StkData E)
    program_page address buf m =
        cmd_start ops (descr_of program (page_cmd (length buf))) (page_ready address buf m)

    abbrev programmed :
        ℕ → List ℕ → Option (Machine (StkData E)) → Option (Bool × Machine (StkData E))
    programmed address buf none = none
    programmed address buf (some m) = some (program_page address buf m)

    -- `stk500_chunk_available`
    unfoldable pub stk_chunk_available :
        ℕ → Machine (StkData E) → ℕ → List ℕ → Option (Bool × Machine (StkData E))
    unfolding address_rounds address_tried after_reset
    stk_chunk_available drains m address buf =
        let written = programmed address buf (address_rounds drains 3 address m) in
        if has dd.flash then written else some (false, m)

    -- `stk500_run`
    unfoldable pub stk_run : Machine (StkData E) → Option (Bool × Machine (StkData E))
    stk_run m = run_cmd m (stk_leave_progmode ∷ stk_crc_eop ∷ []) (result_cmd 2)

  -- `stk500_on_interface_event`
  unfoldable pub stk_on_interface_event : Machine (StkData E) → Machine (StkData E)
  stk_on_interface_event m = event_of (data_of m).curr_descr
    where
      event_of : Option StkCommand → Machine (StkData E)
      event_of none = m
      event_of (some cmd) = cmd_on_interface_event ops (descr_of program cmd) m

  -- `stk500_on_idle`
  unfoldable pub stk_on_idle : Machine (StkData E) → Machine (StkData E)
  stk_on_idle m = idle_of (data_of m).curr_descr
    where
      idle_of : Option StkCommand → Machine (StkData E)
      idle_of none = m
      idle_of (some cmd) = (cmd_on_idle ops (descr_of program cmd) m).1

-- `stk500_get_write_chunk_size`
abbrev pub stk_write_chunk_size : ℕ
stk_write_chunk_size = 128

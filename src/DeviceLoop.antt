-- ===== src/DeviceLoop.antt =====
-- `dfu_idle`, src/dfu.c: one pass over the interface, the file, the timeouts, the target and the host.
-- What the program that uses the library and the drivers do in their callbacks is a parameter.
use libdfu.Base.{
  ℕ, ◌+◌, ◌-◌, ◌%◌, ◌^◌, Bool, true, false, not, ◌||◌, Option, none, some, ltb, if◌then◌else◌,
  get_or,
}
use libdfu.Timeouts.{remove_timeout}
use libdfu.Flow.{Ops, World, on_idle}

-- `struct dfu_data`; the world holds the file, the target and the timeouts.
pub record DfuData (D : Type 0) : Type 0 where
  pub world : World D
  pub busy : Bool
  pub error : Bool

-- What a poll returns: 0, its event, or anything else.
pub data Poll : Type 0 where
  no_event : Poll
  event : Poll
  unexpected : Poll

-- The bits of what the idle operation of the host returns.
pub record HostEvents : Type 0 where
  pub timeout : Bool
  pub file_event : Bool
  pub interface_event : Bool

-- An optional operation is `none` where it is missing; `on_interface_event`, `on_file_event` and
-- `target_idle` change nothing then. `fire` runs the callback of a timeout. The idle operation of the
-- host is given the next timeout, and fails with `none`.
pub record LoopOps (D : Type 0) : Type 0 where
  pub target : Ops D
  pub poll_interface : Option (DfuData D → Poll × DfuData D)
  pub poll_file : Option (DfuData D → Poll × DfuData D)
  pub on_interface_event : DfuData D → DfuData D
  pub on_file_event : DfuData D → DfuData D
  pub fire : ℕ → DfuData D → DfuData D
  pub target_idle : DfuData D → DfuData D
  pub host_idle : Option (DfuData D → Option ℕ → Option HostEvents × DfuData D)

pub data Status : Type 0 where
  dfu_error : Status
  dfu_continue : Status
  dfu_all_done : Status

-- timeouts[0]
abbrev pub first_timeout : {D : Type 0} → DfuData D → Option ℕ
first_timeout d = get_or d.world.timers.slots 0 none

-- `time_after (now, next_timeout)`, where an `int` is taken for a `long`
abbrev pub is_due : ℕ → ℕ → Bool
is_due now next =
    let wide = if ltb next (2 ^ 31) then next else next + (2 ^ 64 - 2 ^ 32) in
    ltb ((wide + 2 ^ 63) % 2 ^ 64) ((now + 2 ^ 63) % 2 ^ 64)

abbrev pub with_world : {D : Type 0} → DfuData D → World D → DfuData D
with_world d w = record d { world = w }

module _ {D : Type 0} (ops : LoopOps D) where
  -- `_trigger_timeout`; false is for a timeout that is no longer in the list after its callback.
  pub trigger_timeout : DfuData D → ℕ → Bool × DfuData D
  trigger_timeout d to =
      let d' = ops.fire to d in
      let (removed, timers) = remove_timeout d'.world.timers to in
      (removed, with_world d' (record d'.world { timers = timers }))

  pub polled : (DfuData D → DfuData D) → Poll × DfuData D → DfuData D
  polled trigger (no_event, d) = d
  polled trigger (event, d) = trigger d
  polled trigger (unexpected, d) = d

  -- `_poll_interface` and `_poll_file`, where there is something to poll
  pub poll : (DfuData D → DfuData D) → DfuData D → Option (DfuData D → Poll × DfuData D) → DfuData D
  poll trigger d none = d
  poll trigger d (some op) = polled trigger (op d)

  pub trigger_due : DfuData D → Option ℕ → Bool × DfuData D
  trigger_due d none = (true, d)
  trigger_due d (some to) =
      let triggered = trigger_timeout d to in
      if is_due d.world.now (d.world.timers.values to) then triggered else (true, d)

  -- `_trigger_timeout` on DFU_TIMEOUT. The source takes timeouts[0] to be there.
  pub trigger_first : DfuData D → Option ℕ → Bool × DfuData D
  trigger_first d none = (false, d)
  trigger_first d (some to) = trigger_timeout d to

  pub idle_end : DfuData D → Status × DfuData D
  idle_end d = (if d.world.file.really_written then dfu_all_done else dfu_continue, d)

  pub host_events : HostEvents → DfuData D → Status × DfuData D
  host_events events d =
      let d1 = if events.file_event then ops.on_file_event d else d in
      let d2 = if events.interface_event then ops.on_interface_event d1 else d1 in idle_end d2

  pub host_idled : Option HostEvents × DfuData D → Status × DfuData D
  host_idled (none, d) = (dfu_error, d)
  host_idled (some events, d) =
      let (ok, d') = trigger_first d (first_timeout d) in
      let timed = host_events events d' in
      let untimed = host_events events d in
      if events.timeout then (if ok then timed else (dfu_error, d')) else untimed

  abbrev pub next_timeout : DfuData D → Option ℕ
  next_timeout d = value (first_timeout d)
    where
      value : Option ℕ → Option ℕ
      value none = none
      value (some to) = some (d.world.timers.values to)

  pub idle_host :
      DfuData D → Option (DfuData D → Option ℕ → Option HostEvents × DfuData D) → Status × DfuData D
  idle_host d none = idle_end d
  idle_host d (some op) = host_idled (op d (next_timeout d))

  -- From the idle operation of the target on.
  pub idle_target : DfuData D → Status × DfuData D
  idle_target d =
      let d1 = ops.target_idle d in
      let (ok, w) = on_idle ops.target d1.world in
      let d2 = with_world d1 w in
      let rest = idle_host d2 ops.host_idle in if ok then rest else (dfu_error, d2)

  unfoldable pub dfu_idle : DfuData D → Status × DfuData D
  unfolding idle_target idle_host host_idled host_events idle_end trigger_first trigger_due poll
      polled trigger_timeout
  dfu_idle d =
      let d1 = poll ops.on_interface_event d ops.poll_interface in
      let d2 = poll ops.on_file_event d1 ops.poll_file in
      let (ok, d3) = trigger_due d2 (first_timeout d2) in
      let rest = idle_target d3 in
      if not d.busy || d.error then (dfu_error, d) else if ok then rest else (dfu_error, d3)

-- ===== src/Command/Steps.antt =====
-- Every call that drives a command keeps it sound: the start, the events, the idle loop, the timeout.
use libdfu.Base.{◌<◌, ◌≡◌, refl, true, false, length}
use libdfu.Interface.{IfaceOps}
use libdfu.Command.{CmdDescr, Machine, is_running, is_none_dir}
use libdfu.Command.Next.{buf_at, end_with, on_cmd_timeout}
use libdfu.Command.Engine.{cmd_start, cmd_on_interface_event, cmd_on_idle}
use libdfu.Command.Running.{IsCommand, IsSound, on_cmd_timeout-IsSound, ended-IsSound}
use libdfu.Command.Kept.{cmd_start-IsSound, cmd_on_idle-IsSound, event-IsSound}

module _ {D : Type 0} (ops : IfaceOps D) (descr : CmdDescr D) (good : IsCommand descr) where
  -- What can happen to a command: its start, an event of the interface, a pass of the idle loop, its
  -- timeout while it runs, and the timeout that an ended command has left behind, as `_cmd_end` does not
  -- cancel it, at a buffer that is not a pure delay.
  pub data Step (m : Machine D) : Machine D → Type 0 where
    start : Step m (cmd_start ops descr m).1
    event : Step m (cmd_on_interface_event ops descr m)
    idle : Step m (cmd_on_idle ops descr m).1
    timeout : is_running m.status ≡ true → Step m (on_cmd_timeout descr m)
    stale :
        is_running m.status ≡ false
        → m.cmdbuf_index < length descr.cmdbufs
        → is_none_dir (buf_at descr m.cmdbuf_index).dir ≡ false
        → Step m (on_cmd_timeout descr m)

  pub data Reach (m : Machine D) : Machine D → Type 0 where
    here : Reach m m
    then_step : {mid last : Machine D} → Reach m mid → Step mid last → Reach m last

  stale-IsSound :
      (m : Machine D)
      → is_none_dir (buf_at descr m.cmdbuf_index).dir ≡ false
      → IsSound descr (on_cmd_timeout descr m)
  unfolding on_cmd_timeout end_with
  stale-IsSound m wait = rw wait (ended-IsSound descr _ refl refl)

  Step-IsSound : {m m' : Machine D} → Step m m' → IsSound descr m → IsSound descr m'
  unfolding cmd_on_interface_event
  Step-IsSound {m} start s = cmd_start-IsSound ops descr good m s
  Step-IsSound {m} event s = event-IsSound ops descr good m m.status refl s
  Step-IsSound {m} idle s = cmd_on_idle-IsSound ops descr good m s
  Step-IsSound {m} (timeout running) s = on_cmd_timeout-IsSound descr good m (s.live running)
  Step-IsSound {m} (stale ended inside wait) s = stale-IsSound m wait

  -- For a command with at least one buffer, where each retry goes back to a buffer of the command that
  -- has no retry of its own: whatever starts, events, passes of the idle loop, timeouts while the command
  -- runs, and timeouts after its end at one of its buffers that is not a pure delay, follow a state in
  -- which no command runs and the target is ready, the command that runs is at one of its buffers with
  -- the target busy, and when it has ended the target is ready. A timeout after the end at a pure delay,
  -- or with the index behind the buffers, is left out.
  pub Reach-IsSound :
      {m m' : Machine D}
      → is_running m.status ≡ false
      → m.busy ≡ false
      → Reach m m'
      → IsSound descr m'
  Reach-IsSound {m} ended ready here = ended-IsSound descr m ended ready
  Reach-IsSound ended ready (then_step r st) = Step-IsSound st (Reach-IsSound ended ready r)

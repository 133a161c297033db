-- ===== src/Command/Next.antt =====
-- The end of a buffer and of a command: `_next_buf`, `_cmd_end` and the timeout of a command,
-- src/target/dfu-cmd.c.
use libdfu.Base.{
  ℕ, ◌+◌, Bool, true, false, not, ◌&&◌, Option, none, some, ◌==◌, leb, if◌then◌else◌, get_or,
  length,
}
use libdfu.Timeouts.{Timers, remove_timeout}
use libdfu.Interface.{Interface}
use libdfu.Command.{
  Memory, CmdBuf, CmdStatus, CmdDescr, Machine, Outcome, status_ok, status_initialized,
  status_retrying, status_error, status_timeout, cmdbuf_continue, cmdbuf_error, cmdbuf_done,
  empty_buf, is_none_dir, is_retrying,
}

module _ {D : Type 0} (descr : CmdDescr D) where
  unfoldable pub run_completed : CmdStatus → Interface D → Option (CmdStatus → D → D) → Interface D
  run_completed s i none = i
  run_completed s i (some cb) = record i { device = cb s i.device }

  -- The end of a command with status `s`: the callback, and `dfu_target_set_ready`.
  unfoldable pub end_with : Machine D → CmdStatus → Machine D
  end_with m s = record m {
    status = s;
    busy = false;
    interface = run_completed s m.interface descr.completed;
  }

  -- `_cmd_end`: `true` is for DFU_CMD_STATUS_OK. `false` is for the -1 of its other calls, and for the
  -- negative result of a callback of a buffer, which in the source need not be -1.
  unfoldable pub cmd_end : Machine D → Bool → Outcome × Machine D
  cmd_end m true = (cmdbuf_done, end_with m status_ok)
  cmd_end m false = (cmdbuf_error, end_with m status_error)

  unfoldable pub cancel : Timers → Option ℕ → Timers
  cancel t none = t
  cancel t (some to) = (remove_timeout t to).1

  abbrev pub buf_at : ℕ → CmdBuf
  buf_at i = get_or descr.cmdbufs i empty_buf

  -- What ends `_next_buf`.
  unfoldable pub advance : Machine D → Outcome × Machine D
  advance m =
      if leb (length descr.cmdbufs) m.cmdbuf_index && not (is_retrying m.status)
      then cmd_end m true
      else (cmdbuf_continue, m)

  -- `_next_buf` after the callback of the buffer, which succeeded or not.
  unfoldable pub next_after : Machine D → CmdBuf → Bool → Outcome × Machine D
  next_after m buf ok =
      let cancelled = record m { timers = cancel m.timers descr.timeout } in
      if not buf.retry_on_error
      then (let m' = if not (buf.timeout == 0) && not (is_none_dir buf.dir) then cancelled else m in
          if ok
          then advance
              (record m' { cmdbuf_index = m.cmdbuf_index + 1; status = status_initialized })
          else cmd_end m' false)
      else if ok
      then (let m' = if not (buf.timeout == 0) then cancelled else m in
          advance (record m' { cmdbuf_index = m.cmdbuf_index + 1 }))
      else advance (record m { cmdbuf_index = buf.next_on_retry; status = status_retrying })

  unfoldable pub completed_buf :
      Machine D → CmdBuf → Option (Memory → Bool × Memory) → Outcome × Machine D
  completed_buf m buf none = next_after m buf true
  completed_buf m buf (some cb) =
      let (ok, memory) = cb m.memory in next_after (record m { memory = memory }) buf ok

  unfoldable pub next_buf : Machine D → Outcome × Machine D
  next_buf m = let buf = buf_at m.cmdbuf_index in completed_buf m buf buf.completed

  -- `_on_cmd_timeout`
  unfoldable pub on_cmd_timeout : Machine D → Machine D
  on_cmd_timeout m =
      let next = (next_buf m).1 in
      if is_none_dir (buf_at m.cmdbuf_index).dir then next else end_with m status_timeout

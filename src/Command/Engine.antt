-- ===== src/Command/Engine.antt =====
-- The step of a command and what the target calls: `_do_cmdbuf`, `dfu_cmd_start`,
-- `dfu_cmd_on_interface_event`, `dfu_cmd_on_idle` and `dfu_cmd_do_sync`, src/target/dfu-cmd.c.
use libdfu.Base.{
  ℕ, zero, suc, ◌+◌, ◌-◌, Bool, true, false, not, ◌&&◌, ◌||◌, Option, none, some, List, ◌==◌,
  if◌then◌else◌, length, take, replicate,
}
use libdfu.Circular.Window.{blit}
use libdfu.Timeouts.{update, insert_timeout}
use libdfu.Interface.{IfaceOps, Interface, has, interface_read, interface_write_read}
use libdfu.Command.{
  Memory, store, CmdBuf, CmdDir, CmdStatus, CmdDescr, Machine, Outcome, Transfer, dir_in, dir_out,
  dir_out_in, dir_none, status_ok, status_initialized, status_interface_ready, status_waiting,
  status_retrying, status_error, status_timeout, cmdbuf_continue, cmdbuf_wait, cmdbuf_error,
  cmdbuf_done, refused, hung, transferred, failed, endless, is_retrying, is_initialized, is_running,
  do_send, do_read,
}
use libdfu.Command.Next.{next_buf, cmd_end, buf_at}

module _ {D : Type 0} (ops : IfaceOps D) (descr : CmdDescr D) where
  abbrev pub starts_checksum : CmdBuf → Memory → Option (Memory → Memory) → Memory
  starts_checksum buf mem none = store mem descr.checksum_ptr (replicate descr.checksum_size 0)
  starts_checksum buf mem (some reset) = reset mem

  abbrev pub updates_checksum : CmdBuf → Memory → Option (List ℕ → Memory → Memory) → Memory
  updates_checksum buf mem none = mem
  updates_checksum buf mem (some up) = up (take buf.len (mem buf.buf_out)) mem

  -- After a transfer: the next buffer, or the end of the command.
  unfoldable pub after_transfer : Machine D → Transfer → Outcome × Machine D
  after_transfer m transferred = next_buf descr m
  after_transfer m failed = cmd_end descr m false
  after_transfer m endless = (hung, m)

  -- The checksum follows the data.
  unfoldable pub after_send : Machine D → CmdBuf → Transfer → Outcome × Machine D
  after_send m buf failed = cmd_end descr m false
  after_send m buf endless = (hung, m)
  after_send m buf transferred =
      let (t, i) =
        do_send ops (take descr.checksum_size (m.memory descr.checksum_ptr)) m.interface in
      let summed = after_transfer (record m { interface = i }) t in
      if buf.send_checksum then summed else next_buf descr m

  -- What is read is thrown away.
  abbrev pub flush : Interface D → Interface D
  flush i = (interface_read ops i 8).1

  -- case OUT
  unfoldable pub do_out : Machine D → CmdBuf → Outcome × Machine D
  do_out m buf =
      let mem = updates_checksum buf m.memory descr.checksum_update in
      let i = if has ops.read then flush m.interface else m.interface in
      let (t, i') = do_send ops (take buf.len (mem buf.buf_out)) i in
      after_send (record m { memory = mem; interface = i' }) buf t

  -- What `dfu_interface_read` brought; `place` is where the bytes go.
  unfoldable pub received_part :
      Machine D → CmdBuf → Option (List ℕ) × Interface D → Outcome × Machine D
  received_part m buf (none, i) =
      let m' = record m { interface = i } in
      let next = next_buf descr m' in
      if m.received == buf.len then next else (cmdbuf_wait, record m' { status = status_waiting })
  received_part m buf (some bytes, i) =
      let m' = record m {
        interface = i;
        received = m.received + length bytes;
        memory = store m.memory buf.buf_in (blit (m.memory buf.buf_in) m.received bytes);
      } in
      let next = next_buf descr m' in
      if m.received + length bytes == buf.len
      then next
      else (cmdbuf_wait, record m' { status = status_waiting })

  -- The part of case IN that does not depend on the timeout.
  unfoldable pub do_in_wait : Machine D → CmdBuf → Outcome × Machine D
  do_in_wait m buf =
      let received = if is_initialized m.status || is_retrying m.status then 0 else m.received in
      let m' = record m { received = received } in
      received_part m' buf (interface_read ops m.interface (buf.len - received))

  unfoldable pub do_in_read :
      Machine D → CmdBuf → Transfer × Memory × Interface D → Outcome × Machine D
  do_in_read m buf (transferred, mem, i) = do_in_wait (record m { memory = mem; interface = i }) buf
  do_in_read m buf (failed, mem, i) = cmd_end descr (record m { memory = mem; interface = i }) false
  do_in_read m buf (endless, mem, i) = (hung, record m { memory = mem; interface = i })

  -- case IN; without a timeout the whole buffer is read first, and then read once more.
  unfoldable pub do_in : Machine D → CmdBuf → Outcome × Machine D
  do_in m buf =
      let read = do_in_read m buf (do_read ops buf.buf_in buf.len m.memory m.interface) in
      if buf.timeout == 0 then read else do_in_wait m buf

  unfoldable pub wrote_read :
      Machine D → CmdBuf → Option (List ℕ) × Interface D → Outcome × Machine D
  wrote_read m buf (none, i) = cmd_end descr (record m { interface = i }) false
  wrote_read m buf (some bytes, i) = next_buf descr (record m {
    interface = i;
    memory = store m.memory buf.buf_in (blit (m.memory buf.buf_in) 0 bytes);
  })

  -- case OUT_IN
  unfoldable pub do_out_in : Machine D → CmdBuf → Outcome × Machine D
  do_out_in m buf =
      let both =
        wrote_read m buf
          (interface_write_read ops m.interface (take buf.len (m.memory buf.buf_out))) in
      if buf.send_checksum
      then cmd_end descr m false
      else if has ops.write_read
      then both
      else cmd_end descr m false

  -- case NONE
  unfoldable pub do_none : Machine D → CmdBuf → Outcome × Machine D
  do_none m buf =
      let next = next_buf descr m in
      if buf.timeout == 0 then next else (cmdbuf_wait, record m { status = status_waiting })

  unfoldable pub do_dir : Machine D → CmdBuf → CmdDir → Outcome × Machine D
  do_dir m buf dir_out = do_out m buf
  do_dir m buf dir_in = do_in m buf
  do_dir m buf dir_out_in = do_out_in m buf
  do_dir m buf dir_none = do_none m buf

  -- The timeout is set where the buffer is new; false is for a list that is full.
  unfoldable pub arm : Machine D → CmdBuf → Option ℕ → Bool × Machine D
  arm m buf none = (true, m)
  arm m buf (some to) =
      let timed = record m.timers { values = update m.timers.values to buf.timeout } in
      let (ok, t) = insert_timeout timed to m.now in
      if is_initialized m.status && not (buf.timeout == 0)
      then (ok, record m { timers = t })
      else (true, m)

  unfoldable pub do_armed : CmdBuf → Bool × Machine D → Outcome × Machine D
  do_armed buf (false, m) = (refused, m)
  do_armed buf (true, m) =
      let mem = starts_checksum buf m.memory descr.checksum_reset in
      do_dir (if buf.start_checksum then record m { memory = mem } else m) buf buf.dir

  -- `_do_cmdbuf` on the current buffer
  unfoldable pub do_cmdbuf : Machine D → Outcome × Machine D
  do_cmdbuf m = let buf = buf_at descr m.cmdbuf_index in do_armed buf (arm m buf descr.timeout)

  abbrev is_error : Outcome → Bool
  is_error cmdbuf_error = true
  is_error cmdbuf_continue = false
  is_error cmdbuf_wait = false
  is_error cmdbuf_done = false
  is_error refused = false
  is_error hung = false

  -- `dfu_cmd_start` of a command with its state; false is for -1.
  unfoldable pub cmd_start : Machine D → Bool × Machine D
  unfolding do_cmdbuf
  cmd_start m =
      let (stat, m') =
        do_cmdbuf (record m { busy = true; status = status_initialized; cmdbuf_index = 0 }) in
      if has ops.write && (has ops.read || has ops.write_read)
      then (not (is_error stat), m')
      else (false, m)

  unfoldable pub on_event : Machine D → CmdStatus → Machine D
  on_event m status_waiting = record m { status = status_interface_ready }
  on_event m status_ok = record m { interface = flush m.interface }
  on_event m status_error = record m { interface = flush m.interface }
  on_event m status_initialized = m
  on_event m status_interface_ready = m
  on_event m status_retrying = m
  on_event m status_timeout = m

  -- `dfu_cmd_on_interface_event` for a command that is there
  unfoldable pub cmd_on_interface_event : Machine D → Machine D
  unfolding on_event
  cmd_on_interface_event m = on_event m m.status

  abbrev pub idle_step : Machine D → CmdStatus → Outcome × Machine D
  idle_step m status_initialized = do_cmdbuf m
  idle_step m status_retrying = do_cmdbuf m
  idle_step m status_interface_ready = do_cmdbuf m
  idle_step m status_waiting = (cmdbuf_continue, m)
  idle_step m status_ok = (cmdbuf_continue, m)
  idle_step m status_error = (cmdbuf_continue, m)
  idle_step m status_timeout = (cmdbuf_continue, m)

  -- `dfu_cmd_on_idle`
  unfoldable pub cmd_on_idle : Machine D → Outcome × Machine D
  unfolding do_cmdbuf
  cmd_on_idle m = idle_step m m.status

  unfoldable pub sync_loop : ℕ → (Machine D → Bool × Machine D) → Machine D → Option (Machine D)
  sync_loop zero idle m = none
  sync_loop (suc n) idle m =
      let (continue, m') = idle m in
      let rest = sync_loop n idle m' in
      if is_running m.status then (if continue then rest else some m') else some m

  -- `dfu_cmd_do_sync`, where `idle` is `dfu_idle` and true is for DFU_CONTINUE. It waits as long as the
  -- idle loop goes on, here for `n` rounds at most.
  unfoldable pub cmd_do_sync :
      ℕ → (Machine D → Bool × Machine D) → Machine D → Option (Bool × Machine D)
  cmd_do_sync n idle m =
      let (started, m') = cmd_start m in
      let waited = sync_loop n idle m' in if started then synced waited else some (false, m')
    where
      synced : Option (Machine D) → Option (Bool × Machine D)
      synced none = none
      synced (some last) = some (true, last)

-- ===== src/Command/Kept.antt =====
-- Each part of the step of a command keeps the command sound, and so do the calls that drive it.
use mathlib.Core.Bool.{true≢false}
use libdfu.Base.{
  sym, ap, ℕ, ◌+◌, ◌≡◌, refl, Bool, true, false, not, ◌&&◌, ◌||◌, Option, none, some, List, ◌==◌,
  length, take, Bool-cases, inl, inr, if◌then◌else◌,
}
use libdfu.Interface.{IfaceOps, Interface, has}
use libdfu.Command.{
  Memory, CmdBuf, CmdDir, CmdStatus, CmdDescr, Machine, Outcome, Transfer, transferred, failed,
  endless, dir_in, dir_out, dir_out_in, dir_none, is_running, is_initialized, status_ok,
  status_initialized, status_interface_ready, status_waiting, status_retrying, status_error,
  status_timeout, do_send,
}
use libdfu.Command.Next.{buf_at}
use libdfu.Command.Engine.{
  after_transfer, after_send, do_out, received_part, do_in_wait, do_in_read, do_in, wrote_read,
  do_out_in, do_none, do_dir, arm, do_armed, do_cmdbuf, cmd_start, cmd_on_idle, on_event, idle_step,
}
use libdfu.Command.Running.{
  IsCommand, Live, IsSound, Live-IsSound, Live-kept, cmd_end-IsSound, next_buf-IsSound,
  ended-IsSound,
}

module _ {D : Type 0} (ops : IfaceOps D) (descr : CmdDescr D) (good : IsCommand descr) where
  -- The same command, with other bytes received, another memory and another interface.
  touched :
      (m m' : Machine D)
      → m'.status ≡ m.status
      → m'.cmdbuf_index ≡ m.cmdbuf_index
      → m'.busy ≡ m.busy
      → Live descr m
      → IsSound descr m'
  touched m m' s i b l = Live-IsSound descr m' (Live-kept descr m m' s i b l)

  choose :
      (b : Bool) (r s : Outcome × Machine D)
      → IsSound descr r.1
      → IsSound descr s.1
      → IsSound descr (if b then r else s).1
  choose true r s h k = h
  choose false r s h k = k

  choose_Live :
      (b : Bool) (m m' : Machine D)
      → Live descr m
      → Live descr m'
      → Live descr (if b then m else m')
  choose_Live true m m' h k = h
  choose_Live false m m' h k = k

  after_transfer-IsSound :
      (m : Machine D) (t : Transfer) → Live descr m → IsSound descr (after_transfer ops descr m t).1
  unfolding after_transfer
  after_transfer-IsSound m transferred l = next_buf-IsSound descr good m l
  after_transfer-IsSound m failed l = cmd_end-IsSound descr m false
  after_transfer-IsSound m endless l = Live-IsSound descr m l

  after_send-IsSound :
      (m : Machine D) (buf : CmdBuf) (t : Transfer)
      → Live descr m
      → IsSound descr (after_send ops descr m buf t).1
  unfolding after_send
  after_send-IsSound m buf failed l = cmd_end-IsSound descr m false
  after_send-IsSound m buf endless l = Live-IsSound descr m l
  after_send-IsSound m buf transferred l =
      let r = do_send ops (take descr.checksum_size (m.memory descr.checksum_ptr)) m.interface in
      let m' = record m { interface = r.1 } in
      elim (Bool-cases buf.send_checksum) [
        | inl sum ↦ rw sum (after_transfer-IsSound m' r.0 (Live-kept descr m m' refl refl refl l))
        | inr plain ↦ rw plain (next_buf-IsSound descr good m l)
      ]

  do_out-IsSound :
      (m : Machine D) (buf : CmdBuf) → Live descr m → IsSound descr (do_out ops descr m buf).1
  unfolding do_out
  do_out-IsSound m buf l = after_send-IsSound _ buf _ (Live-kept descr m _ refl refl refl l)

  waiting-Live : (m : Machine D) → Live descr m → Live descr (record m { status = status_waiting })
  waiting-Live m l = record {
    running = refl;
    in_range = l.in_range;
    busy = l.busy;
    calm = λ e. absurd (true≢false (sym e));
  }

  received_part-IsSound :
      (m : Machine D) (buf : CmdBuf) (r : Option (List ℕ) × Interface D)
      → Live descr m
      → IsSound descr (received_part ops descr m buf r).1
  unfolding received_part
  received_part-IsSound m buf (none, i) l =
      let m' = record m { interface = i } in
      let l' = Live-kept descr m m' refl refl refl l in
      elim (Bool-cases (m.received == buf.len)) [
        | inl full ↦ rw full (next_buf-IsSound descr good m' l')
        | inr part ↦ rw part (Live-IsSound descr _ (waiting-Live m' l'))
      ]
  received_part-IsSound m buf (some bytes, i) l =
      elim (Bool-cases (m.received + length bytes == buf.len)) [
        | inl full ↦ rw full (next_buf-IsSound descr good _ (Live-kept descr m _ refl refl refl l))
        | inr part ↦
            rw part (Live-IsSound descr _ (waiting-Live _ (Live-kept descr m _ refl refl refl l)))
      ]

  do_in_wait-IsSound :
      (m : Machine D) (buf : CmdBuf) → Live descr m → IsSound descr (do_in_wait ops descr m buf).1
  unfolding do_in_wait
  do_in_wait-IsSound m buf l = received_part-IsSound _ buf _ (Live-kept descr m _ refl refl refl l)

  do_in_read-IsSound :
      (m : Machine D) (buf : CmdBuf) (r : Transfer × Memory × Interface D)
      → Live descr m
      → IsSound descr (do_in_read ops descr m buf r).1
  unfolding do_in_read
  do_in_read-IsSound m buf (transferred, mem, i) l =
      do_in_wait-IsSound (record m { memory = mem; interface = i }) buf
        (Live-kept descr m _ refl refl refl l)
  do_in_read-IsSound m buf (failed, mem, i) l = cmd_end-IsSound descr _ false
  do_in_read-IsSound m buf (endless, mem, i) l = touched m _ refl refl refl l

  do_in-IsSound :
      (m : Machine D) (buf : CmdBuf) → Live descr m → IsSound descr (do_in ops descr m buf).1
  unfolding do_in
  do_in-IsSound m buf l = elim (Bool-cases (buf.timeout == 0)) [
    | inl at_once ↦ rw at_once (do_in_read-IsSound m buf _ l)
    | inr wait ↦ rw wait (do_in_wait-IsSound m buf l)
  ]

  wrote_read-IsSound :
      (m : Machine D) (buf : CmdBuf) (r : Option (List ℕ) × Interface D)
      → Live descr m
      → IsSound descr (wrote_read ops descr m buf r).1
  unfolding wrote_read
  wrote_read-IsSound m buf (none, i) l = cmd_end-IsSound descr _ false
  wrote_read-IsSound m buf (some bytes, i) l =
      next_buf-IsSound descr good _ (Live-kept descr m _ refl refl refl l)

  do_out_in-IsSound :
      (m : Machine D) (buf : CmdBuf) → Live descr m → IsSound descr (do_out_in ops descr m buf).1
  unfolding do_out_in
  do_out_in-IsSound m buf l = choose buf.send_checksum _ _ (cmd_end-IsSound descr m false) (
      choose (has ops.write_read) _ _ (wrote_read-IsSound m buf _ l)
        (cmd_end-IsSound descr m false))

  do_none-IsSound :
      (m : Machine D) (buf : CmdBuf) → Live descr m → IsSound descr (do_none ops descr m buf).1
  unfolding do_none
  do_none-IsSound m buf l = elim (Bool-cases (buf.timeout == 0)) [
    | inl skip ↦ rw skip (next_buf-IsSound descr good m l)
    | inr delay ↦ rw delay (Live-IsSound descr _ (waiting-Live m l))
  ]

  do_dir-IsSound :
      (m : Machine D) (buf : CmdBuf) (dir : CmdDir)
      → Live descr m
      → IsSound descr (do_dir ops descr m buf dir).1
  unfolding do_dir
  do_dir-IsSound m buf dir_out l = do_out-IsSound m buf l
  do_dir-IsSound m buf dir_in l = do_in-IsSound m buf l
  do_dir-IsSound m buf dir_out_in l = do_out_in-IsSound m buf l
  do_dir-IsSound m buf dir_none l = do_none-IsSound m buf l

  arm-Live :
      (m : Machine D) (buf : CmdBuf) (o : Option ℕ)
      → Live descr m
      → Live descr (arm ops descr m buf o).1
  unfolding arm
  arm-Live m buf none l = l
  arm-Live m buf (some to) l =
      elim (Bool-cases (is_initialized m.status && not (buf.timeout == 0))) [
        | inl set ↦ rw set (Live-kept descr m _ refl refl refl l)
        | inr unset ↦ rw unset l
      ]

  do_armed-IsSound :
      (buf : CmdBuf) (r : Bool × Machine D)
      → Live descr r.1
      → IsSound descr (do_armed ops descr buf r).1
  unfolding do_armed
  do_armed-IsSound buf (false, m) l = Live-IsSound descr m l
  do_armed-IsSound buf (true, m) l =
      do_dir-IsSound _ buf buf.dir
        (choose_Live buf.start_checksum _ m (Live-kept descr m _ refl refl refl l) l)

  do_cmdbuf-IsSound : (m : Machine D) → Live descr m → IsSound descr (do_cmdbuf ops descr m).1
  unfolding do_cmdbuf
  do_cmdbuf-IsSound m l =
      do_armed-IsSound (buf_at descr m.cmdbuf_index) _
        (arm-Live m (buf_at descr m.cmdbuf_index) descr.timeout l)

  pub cmd_start-IsSound :
      (m : Machine D) → IsSound descr m → IsSound descr (cmd_start ops descr m).1
  unfolding cmd_start
  cmd_start-IsSound m s =
      elim (Bool-cases (has ops.write && (has ops.read || has ops.write_read))) [
        | inl can ↦ rw can (
            do_cmdbuf-IsSound _ (record {
              running = refl;
              in_range = good.some_buf;
              busy = refl;
              calm = λ e. absurd (true≢false (sym e));
            }))
        | inr cannot ↦ rw cannot s
      ]

  pub cmd_on_idle-IsSound :
      (m : Machine D) → IsSound descr m → IsSound descr (cmd_on_idle ops descr m).1
  unfolding cmd_on_idle
  cmd_on_idle-IsSound m s = step m.status refl
    where
      step :
          (status : CmdStatus) → m.status ≡ status → IsSound descr (idle_step ops descr m status).1
      step status_initialized e = do_cmdbuf-IsSound m (s.live (ap is_running e))
      step status_retrying e = do_cmdbuf-IsSound m (s.live (ap is_running e))
      step status_interface_ready e = do_cmdbuf-IsSound m (s.live (ap is_running e))
      step status_waiting e = s
      step status_ok e = s
      step status_error e = s
      step status_timeout e = s

  pub event-IsSound :
      (m : Machine D) (status : CmdStatus)
      → m.status ≡ status
      → IsSound descr m
      → IsSound descr (on_event ops descr m status)
  unfolding on_event
  event-IsSound m status_waiting e s =
      let l = s.live (ap is_running e) in
      Live-IsSound descr _ (record {
        running = refl;
        in_range = l.in_range;
        busy = l.busy;
        calm = λ r. absurd (true≢false (sym r));
      })
  event-IsSound m status_ok e s = ended-IsSound descr _ (ap is_running e) (s.idle (ap is_running e))
  event-IsSound m status_error e s =
      ended-IsSound descr _ (ap is_running e) (s.idle (ap is_running e))
  event-IsSound m status_initialized e s = s
  event-IsSound m status_interface_ready e s = s
  event-IsSound m status_retrying e s = s
  event-IsSound m status_timeout e s = s

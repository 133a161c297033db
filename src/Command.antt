-- ===== src/Command.antt =====
-- The command engine, src/target/dfu-cmd.c and include/dfu-cmd.h: a command is a list of buffers to
-- send or to fill, with timeouts, retries and a checksum, driven by events and by the idle loop.
-- Buffers, the checksum and what the callbacks keep are named places of a memory.
pub mod Send
pub mod Client
pub mod Next
pub mod Engine
pub mod Running
pub mod Kept
pub mod Steps
use libdfu.Base.{
  ℕ, zero, suc, ◌+◌, ◌-◌, Bool, true, false, not, ◌&&◌, ◌||◌, Option, none, some, List, [], ◌==◌,
  ltb, leb, if◌then◌else◌, get_or, length, take, drop, replicate,
}
use libdfu.Circular.Window.{blit}
use libdfu.Timeouts.{Timers}
use libdfu.Interface.{
  IfaceOps, Interface, has, interface_read, interface_write, interface_write_read,
}

abbrev pub Memory : Type 0
Memory = ℕ → List ℕ

abbrev pub store : Memory → ℕ → List ℕ → Memory
store m p bytes q = if p == q then bytes else m q

-- enum dfu_cmd_dir
pub data CmdDir : Type 0 where
  dir_in : CmdDir
  dir_out : CmdDir
  dir_out_in : CmdDir
  dir_none : CmdDir

-- enum dfu_cmd_status
pub data CmdStatus : Type 0 where
  status_ok : CmdStatus
  status_initialized : CmdStatus
  status_interface_ready : CmdStatus
  status_waiting : CmdStatus
  status_retrying : CmdStatus
  status_error : CmdStatus
  status_timeout : CmdStatus

-- `struct dfu_cmdbuf`, with a Boolean for each flag. `completed` says whether it returned 0 or more.
pub record CmdBuf : Type 0 where
  pub dir : CmdDir
  pub start_checksum : Bool
  pub send_checksum : Bool
  pub retry_on_error : Bool
  pub buf_in : ℕ
  pub buf_out : ℕ
  pub len : ℕ
  pub timeout : ℕ
  pub completed : Option (Memory → Bool × Memory)
  pub next_on_retry : ℕ

-- `struct dfu_cmddescr` without the state. `checksum_update` is given the bytes, `completed` the
-- status; it works on `D`, the state of the drivers and of the program.
pub record CmdDescr (D : Type 0) : Type 0 where
  pub cmdbufs : List CmdBuf
  pub checksum_ptr : ℕ
  pub checksum_size : ℕ
  pub timeout : Option ℕ
  pub checksum_reset : Option (Memory → Memory)
  pub checksum_update : Option (List ℕ → Memory → Memory)
  pub completed : Option (CmdStatus → D → D)

-- `struct dfu_cmdstate`, the flag `busy` of the target, and what a command works on.
pub record Machine (D : Type 0) : Type 0 where
  pub status : CmdStatus
  pub cmdbuf_index : ℕ
  pub received : ℕ
  pub busy : Bool
  pub memory : Memory
  pub timers : Timers
  pub now : ℕ
  pub interface : Interface D

-- DO_CMDBUF_CONTINUE, WAIT, ERROR and DONE; a negative value; and a loop that does not end, since
-- the driver takes or gives no bytes.
pub data Outcome : Type 0 where
  cmdbuf_continue : Outcome
  cmdbuf_wait : Outcome
  cmdbuf_error : Outcome
  cmdbuf_done : Outcome
  refused : Outcome
  hung : Outcome

-- How `_do_send` and `_do_read` end.
pub data Transfer : Type 0 where
  transferred : Transfer
  failed : Transfer
  endless : Transfer

abbrev pub empty_buf : CmdBuf
empty_buf = record {
  dir = dir_none;
  start_checksum = false;
  send_checksum = false;
  retry_on_error = false;
  buf_in = 0;
  buf_out = 0;
  len = 0;
  timeout = 0;
  completed = none;
  next_on_retry = 0;
}

abbrev pub is_none_dir : CmdDir → Bool
is_none_dir dir_none = true
is_none_dir dir_in = false
is_none_dir dir_out = false
is_none_dir dir_out_in = false

abbrev pub is_retrying : CmdStatus → Bool
is_retrying status_retrying = true
is_retrying status_ok = false
is_retrying status_initialized = false
is_retrying status_interface_ready = false
is_retrying status_waiting = false
is_retrying status_error = false
is_retrying status_timeout = false

abbrev pub is_initialized : CmdStatus → Bool
is_initialized status_initialized = true
is_initialized status_retrying = false
is_initialized status_ok = false
is_initialized status_interface_ready = false
is_initialized status_waiting = false
is_initialized status_error = false
is_initialized status_timeout = false

abbrev pub is_running : CmdStatus → Bool
is_running status_initialized = true
is_running status_retrying = true
is_running status_waiting = true
is_running status_interface_ready = true
is_running status_ok = false
is_running status_error = false
is_running status_timeout = false

abbrev pub is_status_ok : CmdStatus → Bool
is_status_ok status_ok = true
is_status_ok status_error = false
is_status_ok status_timeout = false
is_status_ok status_initialized = false
is_status_ok status_interface_ready = false
is_status_ok status_waiting = false
is_status_ok status_retrying = false

abbrev pub is_negative : CmdStatus → Bool
is_negative status_error = true
is_negative status_timeout = true
is_negative status_ok = false
is_negative status_initialized = false
is_negative status_interface_ready = false
is_negative status_waiting = false
is_negative status_retrying = false

module _ {D : Type 0} (ops : IfaceOps D) where
  pub sent_part :
      (List ℕ → Interface D → Transfer × Interface D)
      → List ℕ
      → Option ℕ × Interface D
      → Transfer × Interface D
  sent_part loop bytes (none, i) = (failed, i)
  sent_part loop bytes (some n, i) = loop (drop n bytes) i

  -- The loop of `_do_send` on what is left to send.
  pub send_loop : ℕ → List ℕ → Interface D → Transfer × Interface D
  send_loop zero bytes i = (if length bytes == 0 then transferred else endless, i)
  send_loop (suc n) bytes i =
      let round = sent_part (send_loop n) bytes (interface_write ops i bytes) in
      if length bytes == 0 then (transferred, i) else round

  -- A round sends a byte at least, else the source may go round for ever.
  unfoldable pub do_send : List ℕ → Interface D → Transfer × Interface D
  unfolding send_loop sent_part
  do_send bytes i = send_loop (length bytes) bytes i

  pub got_part :
      (ℕ → Memory → Interface D → Transfer × Memory × Interface D)
      → ℕ
      → ℕ
      → Memory
      → Option (List ℕ) × Interface D
      → Transfer × Memory × Interface D
  got_part loop place recvd m (none, i) = (failed, m, i)
  got_part loop place recvd m (some bytes, i) =
      loop (recvd + length bytes) (store m place (blit (m place) recvd bytes)) i

  -- The loop of `_do_read`, with `recvd` of the `len` bytes read.
  pub read_loop : ℕ → ℕ → ℕ → ℕ → Memory → Interface D → Transfer × Memory × Interface D
  read_loop zero place len recvd m i = (if ltb recvd len then endless else transferred, m, i)
  read_loop (suc n) place len recvd m i =
      let round =
        got_part (read_loop n place len) place recvd m (interface_read ops i (len - recvd)) in
      if ltb recvd len then round else (transferred, m, i)

  unfoldable pub do_read : ℕ → ℕ → Memory → Interface D → Transfer × Memory × Interface D
  unfolding read_loop got_part
  do_read place len m i = read_loop len place len 0 m i

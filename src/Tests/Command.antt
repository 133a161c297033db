-- ===== src/Tests/Command.antt =====
-- Inputs for the interface and for the command engine.
use libdfu.Base.{
  Option, Bool-cases, inl, inr, ℕ, zero, suc, ◌≡◌, refl, ◌<◌, ◌∷◌, [], List, Bool, true, false,
  none, some, arith, ◌++◌,
}
use libdfu.Interface.{IfaceOps, Interface, do_setup, with_setup}
use libdfu.Interface.Setup.{run_ops, run_direct, run_ops-sets_up_once}
use libdfu.Command.{CmdBuf, CmdDescr, Machine, dir_out, dir_out_in, empty_buf, status_ok, do_send}
use libdfu.Command.Next.{buf_at}
use libdfu.Command.Engine.{cmd_start, cmd_on_idle}
use libdfu.Command.Send.{TakesBytes, Sent, do_send-Sent}
use libdfu.Command.Running.{IsCommand, IsSound}
use libdfu.Command.Steps.{Reach, Reach-IsSound, here, then_step, start, idle}

-- A driver that takes one byte of each write, and notes that it has been opened.
abbrev take_one : List ℕ → List ℕ → Option ℕ × List ℕ
take_one d [] = (some 0, d)
take_one d (b ∷ bytes) = (some 1, d ++ (b ∷ []))

abbrev log_ops : IfaceOps (List ℕ)
log_ops = record {
  start_cb = none;
  open_op = some (λ d path pars. (true, 100 ∷ d));
  fini = none;
  poll_idle = none;
  target_reset = none;
  target_run = none;
  read = none;
  write = some take_one;
  write_read = some (λ d buf. (some (1 ∷ []), d ++ buf));
}

abbrev log_iface : Bool → Interface (List ℕ)
log_iface ready = record { path = some 0; pars = none; setup_done = ready; device = [] }

abbrev put : ℕ → List ℕ → Option ℕ × List ℕ
put b d = (some 1, d ++ (b ∷ []))

run_ops-sets_up_once_example :
    run_ops log_ops (put 7 ∷ put 8 ∷ []) (log_iface false)
    ≡ run_direct log_ops (put 7 ∷ put 8 ∷ []) (do_setup log_ops (log_iface false)).1
unfolding do_setup
run_ops-sets_up_once_example =
    run_ops-sets_up_once log_ops (put 7) (put 8 ∷ []) (log_iface false) refl refl

-- The same driver where opening leaves no note.
abbrev quiet_ops : IfaceOps (List ℕ)
quiet_ops = record log_ops { open_op = some (λ d path pars. (true, d)) }

abbrev sent_log : Interface (List ℕ) → List ℕ
sent_log i = i.device

takes_one : TakesBytes quiet_ops sent_log
unfolding with_setup do_setup
takes_one i [] h = absurd (omega arith)
takes_one i (b ∷ bytes) h = elim (Bool-cases i.setup_done) [
  | inl ready ↦ rw ready (omega arith, omega arith, refl)
  | inr fresh ↦ rw fresh (omega arith, omega arith, refl)
]

do_send-Sent_example :
    Sent sent_log (log_iface false) (5 ∷ 6 ∷ []) (do_send quiet_ops (5 ∷ 6 ∷ []) (log_iface false))
do_send-Sent_example = do_send-Sent quiet_ops sent_log takes_one (5 ∷ 6 ∷ []) (log_iface false)

-- Two buffers, the second of which goes back to the first when it fails.
abbrev first_buf : CmdBuf
first_buf = record empty_buf { dir = dir_out; len = 2 }

abbrev second_buf : CmdBuf
second_buf = record empty_buf {
  dir = dir_out_in;
  len = 1;
  buf_in = 1;
  retry_on_error = true;
  next_on_retry = 0;
  completed = some (λ mem. (false, mem));
}

abbrev retried : CmdDescr (List ℕ)
retried = record {
  cmdbufs = first_buf ∷ second_buf ∷ [];
  checksum_ptr = 9;
  checksum_size = 0;
  timeout = none;
  checksum_reset = none;
  checksum_update = none;
  completed = some (λ status d. 200 ∷ d);
}

retried-IsCommand : IsCommand retried
retried-IsCommand = record { some_buf = omega arith; retry_in = back_in; retry_once = once }
  where
    back_in :
        (k : ℕ) → (buf_at retried k).retry_on_error ≡ true → (buf_at retried k).next_on_retry < 2
    back_in zero e = omega arith
    back_in (suc zero) e = omega arith
    back_in (suc (suc k)) e = omega arith

    once :
        (k : ℕ)
        → (buf_at retried k).retry_on_error ≡ true
        → (buf_at retried (buf_at retried k).next_on_retry).retry_on_error ≡ false
    once zero e = refl
    once (suc zero) e = refl
    once (suc (suc k)) e = refl

abbrev idle_machine : Machine (List ℕ)
idle_machine = record {
  status = status_ok;
  cmdbuf_index = 0;
  received = 0;
  busy = false;
  memory = λ p. 3 ∷ 4 ∷ [];
  timers = record { slots = none ∷ []; values = λ p. 0 };
  now = 0;
  interface = log_iface true;
}

abbrev ran :
    Reach quiet_ops retried retried-IsCommand idle_machine
      (cmd_on_idle quiet_ops retried
        (cmd_on_idle quiet_ops retried (cmd_start quiet_ops retried idle_machine).1).1).1
ran = then_step (then_step (then_step here start) idle) idle

Reach-IsSound_example :
    IsSound retried
      (cmd_on_idle quiet_ops retried
        (cmd_on_idle quiet_ops retried (cmd_start quiet_ops retried idle_machine).1).1).1
Reach-IsSound_example = Reach-IsSound quiet_ops retried retried-IsCommand refl refl ran

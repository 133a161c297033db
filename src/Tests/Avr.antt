-- ===== src/Tests/Avr.antt =====
-- Inputs for the targets of the AVR microcontrollers, with the ATmega328P.
use libdfu.Base.{ℕ, ◌≡◌, refl, ◌+◌, ◌*◌, ◌∷◌, [], List, none, some, true, false, arith}
use libdfu.Interface.{IfaceOps}
use libdfu.Command.{Machine, status_ok}
use libdfu.Base.Word.{IsSize}
use libdfu.Avr.{atmega328p, Program}
use libdfu.Avr.Isp.Page.{flash_place, flash_place-eq}
use libdfu.Avr.Stk500.{StkData, page_cmd, result_cmd, descr_of}
use libdfu.Avr.Stk500.Target.{address_ready, page_ready}
use libdfu.Avr.Stk500.Frames.{sent_by, read_address, read_page, frames-eq}

sixty_four-IsSize : IsSize 64
sixty_four-IsSize = record { exponent = 6; small = omega arith; power = refl }

flash_place-eq_example : flash_place atmega328p (3 * (64 * 2) + 10) 7 200 ≡ 3 * (64 * 2) + 10 + 7
flash_place-eq_example =
    flash_place-eq atmega328p 64 3 10 refl sixty_four-IsSize 7 200 refl (omega arith) (omega arith)

-- A driver without operations, and a machine of the STK500 target that has a chunk to write.
abbrev no_ops : IfaceOps (StkData ℕ)
no_ops = record {
  start_cb = none;
  open_op = none;
  fini = none;
  poll_idle = none;
  target_reset = none;
  target_run = none;
  read = none;
  write = none;
  write_read = none;
}

abbrev quiet_program : Program ℕ
quiet_program = record { timeout_id = 5; file_chunk_done = λ addr ok e. e; udelay = none }

abbrev at_rest : Machine (StkData ℕ)
at_rest = record {
  status = status_ok;
  cmdbuf_index = 0;
  received = 0;
  busy = false;
  memory = λ place. 1 ∷ 2 ∷ [];
  timers = record { slots = none ∷ []; values = λ p. 0 };
  now = 0;
  interface = record {
    path = none;
    pars = none;
    setup_done = true;
    device = record { curr_descr = none; curr_chunk_addr = 0; rest = 0 };
  };
}

abbrev chunk : List ℕ
chunk = 12 ∷ 148 ∷ 7 ∷ []

frames-eq_example :
    (read_address (
        sent_by
          (descr_of quiet_program (result_cmd 4)).cmdbufs
          (address_ready quiet_program no_ops atmega328p at_rest 384).memory)
      ≡ some 384)
    × (read_page (
          sent_by
            (descr_of quiet_program (page_cmd 3)).cmdbufs
            (page_ready quiet_program no_ops atmega328p 384 chunk at_rest).memory)
        ≡ some chunk)
frames-eq_example =
    frames-eq quiet_program no_ops atmega328p at_rest 384 chunk refl (omega arith) (omega arith)

-- ===== src/Tests/Stm32.antt =====
-- Inputs for the flash and the commands of the STM32.
use libdfu.Base.{
  none, false, ◌<◌, ◌≤◌, zero, suc, ltb, Bool-cases, inl, inr, sym, ◌∙◌, ℕ, ◌≡◌, refl, ◌/◌, ◌%◌,
  ◌^◌, ◌+◌, ◌-◌, ◌∷◌, [], List, true, some, arith, ◌||◌, ◌==◌, ◌++◌,
}
use mathlib.Core.Path.{subst, ap}
use mathlib.Core.Option.{some-injective}
use libdfu.Interface.{IfaceOps}
use libdfu.Command.{Machine, status_ok}
use libdfu.Stm32.Target.{write_ready}
use libdfu.Stm32.Frames.{read_write, sent_summed, read_write-sent_summed}
use libdfu.Stm32.Commands.{Stm32Data, Program, write_descr, xor_bytes, erase_bytes}
use libdfu.Stm32.{
  f469_areas, not_erased, set_bits, MemoryArea, test_bit, set_bit, find_area, map_sectors, to_erase,
  bitmask, bank_sectors, mark_erased, erase_need, all_erased, bank,
}
use libdfu.Stm32.Sectors.{Inside, Found, map_sectors-Found}
use libdfu.Stm32.Erased.{bits, test_bit-set_bit, to_erase-mark_erased}
use libdfu.Stm32.Safe.{IsMapped, Erased, erase_need-Erased}
use libdfu.Stm32.Checksum.{read_be16, ones, xor_bytes-parity, read_be16-erase_bytes}

-- A chunk that begins in the first sector and ends in the second.
map_sectors-Found_example :
    Found 134217828
      (134217828 + 16384 - 1)
      (bank 134217728 12).sectors
      12
      134217728
      (map_sectors (bank 134217728 12) 134217828 16384)
map_sectors-Found_example =
    map_sectors-Found (bank 134217728 12) 134217828 16384 (omega arith) (omega arith) (omega arith)
      (omega arith)

test_bit-set_bit_example : test_bit 3 (set_bit 3 (5 ∷ [])) ≡ (3 == 3 || test_bit 3 (5 ∷ []))
test_bit-set_bit_example = test_bit-set_bit 3 3 (5 ∷ []) (omega arith)

two_listed : to_erase (bank 134217728 12) (13, 2) ≡ some (13 ∷ 14 ∷ [])
unfolding to_erase not_erased test_bit
two_listed = refl

to_erase-mark_erased_example :
    to_erase (mark_erased (bank 134217728 12) (13 ∷ 14 ∷ [])) (13, 2) ≡ some []
to_erase-mark_erased_example =
    to_erase-mark_erased (bank 134217728 12) 13 2 (13 ∷ 14 ∷ []) (omega arith) two_listed

abbrev get_command : List ℕ
get_command = 67 ∷ 1 ∷ []

xor_bytes-parity_example :
    ((k : ℕ) → xor_bytes 0 get_command / 2 ^ k % 2 ≡ ones k get_command % 2)
    × (xor_bytes 0 (get_command ++ (xor_bytes 0 get_command ∷ [])) ≡ 0)
xor_bytes-parity_example = xor_bytes-parity get_command

read_be16-erase_bytes_example : read_be16 (erase_bytes true (300 ∷ 4 ∷ [])) ≡ 1 ∷ 300 ∷ 4 ∷ []
read_be16-erase_bytes_example =
    read_be16-erase_bytes (300 ∷ 4 ∷ []) (omega arith, (omega arith, tt)) (omega arith)
      (omega arith)

-- The first bank of the STM32F469 with its second sector marked, in front of a second bank.
abbrev marked_areas : List MemoryArea
marked_areas = mark_erased (bank 134217728 0) (1 ∷ []) ∷ bank 135266304 12 ∷ []

lies_in_first :
    find_area marked_areas 0 134234212 256 ≡ some (0, mark_erased (bank 134217728 0) (1 ∷ []))
unfolding find_area mark_erased
lies_in_first = refl

-- The chunk ends in one of the eight sectors that have a bit.
in_mask :
    (k : ℕ)
    → Inside bank_sectors 134217728 (134234212 + 256 - 1) k
    → k < bits (bitmask (mark_erased (bank 134217728 0) (1 ∷ [])))
unfolding mark_erased set_bits set_bit
in_mask k h = elim (Bool-cases (ltb k 8)) [
  | inl few ↦ ground (arith, few)
  | inr many ↦ absurd (beyond k (ground (arith, many)) h)
]
  where
    beyond : (j : ℕ) → 8 ≤ j → Inside bank_sectors 134217728 (134234212 + 256 - 1) j → ⊥
    beyond zero le i = omega arith
    beyond (suc zero) le i = omega arith
    beyond (suc (suc zero)) le i = omega arith
    beyond (suc (suc (suc j))) le i = omega (arith, i.from_start)

marked-IsMapped :
    (i : ℕ) (a : MemoryArea)
    → find_area marked_areas 0 134234212 256 ≡ some (i, a)
    → IsMapped 134234212 256 a
unfolding mark_erased
marked-IsMapped i a e =
    subst (IsMapped 134234212 256)
      (ap (λ (p : ℕ × MemoryArea). p.1) (some-injective _ _ (sym lies_in_first ∙ e))) first_mapped
  where
    first_mapped : IsMapped 134234212 256 (mark_erased (bank 134217728 0) (1 ∷ []))
    first_mapped = record { small = omega arith; covered = omega arith; room = in_mask }

taken_for_erased : erase_need marked_areas 134234212 256 ≡ all_erased
unfolding erase_need find_area map_sectors to_erase not_erased test_bit mark_erased set_bit set_bits
taken_for_erased = refl

erase_need-Erased_example : Erased marked_areas 134234212 256
erase_need-Erased_example =
    erase_need-Erased marked_areas 134234212 256 (omega arith) marked-IsMapped taken_for_erased

-- A driver without operations, and a machine of the target that has a chunk to write.
abbrev no_ops : IfaceOps (Stm32Data ℕ)
no_ops = record {
  start_cb = none;
  open_op = none;
  fini = none;
  poll_idle = none;
  target_reset = none;
  target_run = none;
  read = none;
  write = none;
  write_read = none;
}

abbrev quiet_program : Program ℕ
quiet_program = record {
  timeout_id = 5;
  notify_error = λ e. e + 1;
  file_chunk_done = λ addr e. e;
  device_probe = none;
}

abbrev at_rest : Machine (Stm32Data ℕ)
at_rest = record {
  status = status_ok;
  cmdbuf_index = 0;
  received = 0;
  busy = false;
  memory = λ place. 1 ∷ 2 ∷ [];
  timers = record { slots = none ∷ []; values = λ p. 0 };
  now = 0;
  interface = record {
    path = none;
    pars = none;
    setup_done = true;
    device = record {
      extended_memory_erase = true;
      double_nak = false;
      curr_chunk_addr = 0;
      curr_descr = none;
      to_be_erased = [];
      erase_area = 0;
      areas = f469_areas;
      part_id = (4, 52);
      rest = 0;
    };
  };
}

abbrev chunk : List ℕ
chunk = 12 ∷ 148 ∷ 7 ∷ []

read_write-sent_summed_example :
    read_write (
      sent_summed no_ops
        (write_descr quiet_program 3)
        (write_descr quiet_program 3).cmdbufs
        (write_ready no_ops quiet_program at_rest 134217984 chunk).memory)
    ≡ some (134217984, chunk)
read_write-sent_summed_example =
    read_write-sent_summed quiet_program no_ops at_rest 134217984 chunk (omega arith) (omega arith)
      (omega arith)

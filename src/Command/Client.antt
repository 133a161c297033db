-- ===== src/Command/Client.antt =====
-- What the targets share that run commands: buffers to send and to fill, commands of them, and the
-- state of a target beside the command.
use libdfu.Base.{ℕ, Bool, Option, none, some, List, ◌==◌, get_or}
use libdfu.Command.{
  Memory, store, CmdBuf, CmdDescr, CmdStatus, Machine, empty_buf, dir_in, dir_out, dir_out_in,
}

-- A buffer to send.
abbrev pub out_buf : ℕ → ℕ → CmdBuf
out_buf place len = record empty_buf { dir = dir_out; buf_out = place; len = len }

-- A buffer to fill within a time, and to check.
abbrev pub in_buf : ℕ → ℕ → ℕ → Option (Memory → Bool × Memory) → CmdBuf
in_buf place len timeout completed = record empty_buf {
  dir = dir_in;
  buf_in = place;
  len = len;
  timeout = timeout;
  completed = completed;
}

-- A buffer to send and to fill at the same time.
abbrev pub out_in_buf : ℕ → ℕ → ℕ → Option (Memory → Bool × Memory) → CmdBuf
out_in_buf out place len completed = record empty_buf {
  dir = dir_out_in;
  buf_out = out;
  buf_in = place;
  len = len;
  completed = completed;
}

-- The first byte at a place has this value.
abbrev pub check_byte : ℕ → ℕ → Memory → Bool × Memory
check_byte place value m = (get_or (m place) 0 0 == value, m)

-- A command without a checksum.
abbrev pub plain_descr : {D : Type 0} → ℕ → List CmdBuf → Option (CmdStatus → D → D) → CmdDescr D
plain_descr timeout_id bufs completed = record {
  cmdbufs = bufs;
  checksum_ptr = 0;
  checksum_size = 0;
  timeout = some timeout_id;
  checksum_reset = none;
  checksum_update = none;
  completed = completed;
}

module _ {D : Type 0} where
  abbrev pub data_of : Machine D → D
  data_of m = m.interface.device

  abbrev pub with_data : Machine D → D → Machine D
  with_data m d = record m { interface = record m.interface { device = d } }

  abbrev pub with_place : Machine D → ℕ → List ℕ → Machine D
  with_place m place bytes = record m { memory = store m.memory place bytes }

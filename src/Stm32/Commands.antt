-- ===== src/Stm32/Commands.antt =====
-- The commands of the STM32 boot loader and the operations of the target, src/target/stm32-usart.c. The
-- buffers of the source are places of the memory of the command engine. `E` is the state of the rest
-- of the program, and of the driver.
use Prim.Native.Nat.{bit_xor}
use libdfu.Base.{
  ℕ, zero, suc, ◌-◌, ◌/◌, ◌%◌, ◌^◌, Bool, true, Option, none, some, List, [], ◌∷◌, ◌++◌, ◌==◌,
  if◌then◌else◌, get_or, length,
}
use libdfu.Command.{
  is_status_ok, Memory, store, CmdBuf, CmdDescr, CmdStatus, empty_buf, dir_in, dir_out,
}
use libdfu.Base.Word.{sub32}
use libdfu.Stm32.{MemoryArea, mark_erased}

-- The places of the static buffers: the command, the acknowledge, the address, the number of bytes,
-- the checksum, the sectors to erase, the data and the replies.
abbrev pub place_cmdb : ℕ
place_cmdb = 1

abbrev pub place_ack : ℕ
place_ack = 2

abbrev pub place_addr : ℕ
place_addr = 3

abbrev pub place_nbytes : ℕ
place_nbytes = 4

abbrev pub place_checksum : ℕ
place_checksum = 5

abbrev pub place_sectors : ℕ
place_sectors = 6

abbrev pub place_data : ℕ
place_data = 7

abbrev pub place_reply : ℕ
place_reply = 8

-- ACK
abbrev pub ack_byte : ℕ
ack_byte = 121

-- `*cptr ^= buf[i]` for each of the bytes
unfoldable pub xor_bytes : ℕ → List ℕ → ℕ
xor_bytes c [] = c
xor_bytes c (b ∷ bytes) = xor_bytes (bit_xor c b) bytes

abbrev checksum_update : List ℕ → Memory → Memory
checksum_update bytes m =
    store m place_checksum (xor_bytes (get_or (m place_checksum) 0 0) bytes ∷ [])

-- `_check_ack`
abbrev check_ack : Memory → Bool × Memory
check_ack m = (get_or (m place_ack) 0 0 == ack_byte, m)

abbrev send : ℕ → ℕ → CmdBuf
send place len = record empty_buf { dir = dir_out; buf_out = place; len = len }

abbrev summed : CmdBuf → CmdBuf
summed buf = record buf { start_checksum = true; send_checksum = true }

abbrev wait_ack : ℕ → CmdBuf
wait_ack timeout = record empty_buf {
  dir = dir_in;
  buf_in = place_ack;
  len = 1;
  timeout = timeout;
  completed = some check_ack;
}

abbrev receive : ℕ → ℕ → CmdBuf
receive len timeout = record empty_buf {
  dir = dir_in;
  buf_in = place_reply;
  len = len;
  timeout = timeout;
}

-- A half word and a word, high byte first, and a word, low byte first.
abbrev pub be16 : ℕ → List ℕ
be16 v = v / 256 % 256 ∷ v % 256 ∷ []

abbrev pub be32 : ℕ → List ℕ
be32 v = be16 (v / 2 ^ 16) ++ be16 v

abbrev pub le32 : ℕ → List ℕ
le32 v = v % 256 ∷ v / 2 ^ 8 % 256 ∷ v / 2 ^ 16 % 256 ∷ v / 2 ^ 24 % 256 ∷ []

abbrev pub all_be16 : List ℕ → List ℕ
all_be16 [] = []
all_be16 (s ∷ sectors) = be16 s ++ all_be16 sectors

abbrev all_bytes : List ℕ → List ℕ
all_bytes [] = []
all_bytes (s ∷ sectors) = s % 256 ∷ all_bytes sectors

-- What `start_erasing` sends after the command: the number of sectors less one, and the sectors.
unfoldable pub erase_bytes : Bool → List ℕ → List ℕ
erase_bytes ext sectors =
    if ext
    then be16 (sub32 (length sectors) 1) ++ all_be16 sectors
    else sub32 (length sectors) 1 % 256 ∷ all_bytes sectors

-- The command that `curr_descr` points to, with the length of the buffer that varies.
pub data Stm32Command : Type 0 where
  erase_cmd : ℕ → Stm32Command
  write_cmd : ℕ → Stm32Command
  read_cmd : ℕ → Stm32Command
  reply_cmd : ℕ → Stm32Command
  sync_cmd : Stm32Command

-- `struct stm32_usart_data`, with the areas and the part id of the device and with `E`.
pub record Stm32Data (E : Type 0) : Type 0 where
  pub extended_memory_erase : Bool
  pub double_nak : Bool
  pub curr_chunk_addr : ℕ
  pub curr_descr : Option Stm32Command
  pub to_be_erased : List ℕ
  pub erase_area : ℕ
  pub areas : List MemoryArea
  pub part_id : ℕ × ℕ
  pub rest : E

-- What `stm32-usart.c` asks of the rest of the program.
pub record Program (E : Type 0) : Type 0 where
  pub timeout_id : ℕ
  pub notify_error : E → E
  pub file_chunk_done : ℕ → E → E
  pub device_probe : Option (E → Bool × E)

abbrev at_area : List MemoryArea → ℕ → (MemoryArea → MemoryArea) → List MemoryArea
at_area [] i f = []
at_area (a ∷ areas) zero f = f a ∷ areas
at_area (a ∷ areas) (suc i) f = a ∷ at_area areas i f

module _ {E : Type 0} (program : Program E) where
  abbrev pub notify : Stm32Data E → Stm32Data E
  notify d = record d { rest = program.notify_error d.rest }

  -- `_erase_done`
  unfoldable pub erase_done : CmdStatus → Stm32Data E → Stm32Data E
  erase_done s d =
      if is_status_ok s
      then record d {
        areas = at_area d.areas d.erase_area (λ a. mark_erased a d.to_be_erased);
        curr_descr = none;
      }
      else notify d

  -- `_chunk_done`
  unfoldable pub chunk_done : CmdStatus → Stm32Data E → Stm32Data E
  chunk_done s d =
      if is_status_ok s
      then record d { rest = program.file_chunk_done d.curr_chunk_addr d.rest; curr_descr = none }
      else notify d

  abbrev plain_descr : List CmdBuf → CmdDescr (Stm32Data E)
  plain_descr bufs = record {
    cmdbufs = bufs;
    checksum_ptr = place_checksum;
    checksum_size = 0;
    timeout = some program.timeout_id;
    checksum_reset = none;
    checksum_update = none;
    completed = none;
  }

  abbrev summed_descr :
      List CmdBuf → Option (CmdStatus → Stm32Data E → Stm32Data E) → CmdDescr (Stm32Data E)
  summed_descr bufs completed = record (plain_descr bufs) {
    checksum_size = 1;
    checksum_update = some checksum_update;
    completed = completed;
  }

  -- The command of `start_erasing`, with `len` bytes that name the sectors.
  abbrev pub erase_descr : ℕ → CmdDescr (Stm32Data E)
  erase_descr len =
      summed_descr
        (send place_cmdb 2 ∷ wait_ack 200 ∷ summed (send place_sectors len) ∷ wait_ack 10000 ∷ [])
        (some erase_done)

  -- The command of `stm32_usart_chunk_available`: command, address, and `sz` bytes behind their number,
  -- with one checksum over number and bytes.
  abbrev pub write_descr : ℕ → CmdDescr (Stm32Data E)
  write_descr sz =
      summed_descr
        (send place_cmdb 2
          ∷ wait_ack 200
          ∷ summed (send place_addr 4)
          ∷ wait_ack 200
          ∷ record (send place_nbytes 1) { start_checksum = true }
          ∷ record (send place_data sz) { send_checksum = true }
          ∷ wait_ack 200
          ∷ [])
        (some chunk_done)

  -- The command of `stm32_usart_read_memory`.
  abbrev pub read_descr : ℕ → CmdDescr (Stm32Data E)
  read_descr sz =
      summed_descr
        (send place_cmdb 2
          ∷ wait_ack 200
          ∷ summed (send place_addr 4)
          ∷ wait_ack 100
          ∷ send place_nbytes 1
          ∷ wait_ack 100
          ∷ receive (sz - 1) 500
          ∷ [])
        none

  -- The commands of `get_cmd` and `gid_cmd`, with a reply of `len` bytes.
  abbrev pub reply_descr : ℕ → CmdDescr (Stm32Data E)
  reply_descr len = plain_descr (send place_cmdb 2 ∷ wait_ack 200 ∷ receive len 300 ∷ [])

  -- The command of `stm32_usart_reset_and_sync`.
  abbrev pub sync_descr : CmdDescr (Stm32Data E)
  sync_descr = plain_descr (send place_cmdb 1 ∷ wait_ack 100 ∷ [])

  abbrev pub descr_of : Stm32Command → CmdDescr (Stm32Data E)
  descr_of (erase_cmd len) = erase_descr len
  descr_of (write_cmd sz) = write_descr sz
  descr_of (read_cmd sz) = read_descr sz
  descr_of (reply_cmd len) = reply_descr len
  descr_of sync_cmd = sync_descr

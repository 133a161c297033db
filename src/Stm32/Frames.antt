-- ===== src/Stm32/Frames.antt =====
-- The frame of `stm32_usart_chunk_available`, src/target/stm32-usart.c, as a boot loader reads it.
use libdfu.Base.{
  ℕ, ◌+◌, ◌-◌, ◌*◌, ◌/◌, ◌%◌, ◌^◌, ◌≤◌, ◌<◌, ◌≡◌, refl, ap, ◌∙◌, Bool, true, false, ◌&&◌, Option,
  none, some, List, [], ◌∷◌, ◌++◌, ◌==◌, if◌then◌else◌, length, take, take_all, arith,
}
use libdfu.Interface.{IfaceOps}
use libdfu.Command.{
  Memory, CmdBuf, CmdDir, CmdDescr, Machine, dir_in, dir_out, dir_out_in, dir_none,
}
use libdfu.Command.Engine.{starts_checksum, updates_checksum}
use libdfu.Stm32.Commands.{Stm32Data, Program, write_descr, xor_bytes, be32}
use libdfu.Stm32.Checksum.{xor_bytes-closed}
use libdfu.Stm32.Target.{write_ready}

abbrev is_out : CmdDir → Bool
is_out dir_out = true
is_out dir_in = false
is_out dir_out_in = false
is_out dir_none = false

-- What the OUT buffers of a command send one after another with their checksums, if what comes in between
-- changes neither them nor the checksum.
abbrev pub sent_summed : {D : Type 0} → IfaceOps D → CmdDescr D → List CmdBuf → Memory → List ℕ
sent_summed ops descr [] m = []
sent_summed ops descr (buf ∷ bufs) m =
    let reset = starts_checksum ops descr buf m descr.checksum_reset in
    let begun = if buf.start_checksum then reset else m in
    let summed = updates_checksum ops descr buf begun descr.checksum_update in
    let sum =
      if buf.send_checksum then take descr.checksum_size (summed descr.checksum_ptr) else [] in
    let sent = take buf.len (summed buf.buf_out) ++ (sum ++ sent_summed ops descr bufs summed) in
    let skipped = sent_summed ops descr bufs m in if is_out buf.dir then sent else skipped

-- The Write Memory command: its code and the complement, the address, high byte first, with a checksum
-- that closes it, and the number of bytes less one, the bytes and a checksum that closes these.
abbrev pub read_write : List ℕ → Option (ℕ × List ℕ)
read_write (code ∷ complement ∷ a3 ∷ a2 ∷ a1 ∷ a0 ∷ sum ∷ n ∷ rest) =
    if code == 49
      && complement == 206
      && xor_bytes 0 (a3 ∷ a2 ∷ a1 ∷ a0 ∷ sum ∷ []) == 0
      && xor_bytes 0 (n ∷ rest) == 0
      && length rest == n + 2
    then some (((a3 * 256 + a2) * 256 + a1) * 256 + a0, take (n + 1) rest)
    else none
read_write bytes = none

take-snoc : (xs : List ℕ) (y : ℕ) → take (length xs) (xs ++ (y ∷ [])) ≡ xs
take-snoc [] y = refl
take-snoc (x ∷ xs) y = ap (λ t. x ∷ t) (take-snoc xs y)

length-snoc : (xs : List ℕ) (y : ℕ) → length (xs ++ (y ∷ [])) ≡ length xs + 1
length-snoc [] y = refl
length-snoc (x ∷ xs) y = omega (arith, length-snoc xs y)

-- The frame of a write.
abbrev frame : ℕ → ℕ → List ℕ → List ℕ
frame address n bytes =
    (49 ∷ 206 ∷ [])
    ++ (be32 address
        ++ (xor_bytes 0 (be32 address) ∷ n ∷ (bytes ++ (xor_bytes 0 (n ∷ bytes) ∷ []))))

module _ {E : Type 0} (program : Program E) (ops : IfaceOps (Stm32Data E)) where
  write_frame :
      (m : Machine (Stm32Data E)) (address : ℕ) (buf : List ℕ)
      → sent_summed ops
          (write_descr program (length buf))
          (write_descr program (length buf)).cmdbufs
          (write_ready ops program m address buf).memory
        ≡ frame address ((length buf - 1) % 256) buf
  unfolding xor_bytes
  write_frame m address buf =
      ap (frame address ((length buf - 1) % 256)) (take_all (length buf) buf (omega arith))

read_write-frame :
    (address n : ℕ) (buf : List ℕ)
    → length buf ≡ n + 1
    → address < 2 ^ 32
    → read_write (frame address n buf) ≡ some (address, buf)
read_write-frame address n buf size small =
    let sum = xor_bytes 0 (n ∷ buf) in
    let long : (length (buf ++ (sum ∷ [])) == n + 2) ≡ true =
      ground (arith, length-snoc buf sum, size) in
    let place : ((address / 2 ^ 16 / 256 % 256 * 256 + address / 2 ^ 16 % 256) * 256
              + address / 256 % 256)
            * 256
          + address % 256
        ≡ address =
      omega arith in
    let first : (xor_bytes 0 (be32 address ++ (xor_bytes 0 (be32 address) ∷ [])) == 0) ≡ true =
      ap (λ x. x == 0) (xor_bytes-closed (be32 address)) in
    let second : (xor_bytes 0 ((n ∷ buf) ++ (sum ∷ [])) == 0) ≡ true =
      ap (λ x. x == 0) (xor_bytes-closed (n ∷ buf)) in
    rw (first, second, long, place, ← size) (ap (λ t. some (address, t)) (take-snoc buf sum))

module _ {E : Type 0} (program : Program E) (ops : IfaceOps (Stm32Data E)) where
  -- For one to 256 bytes and an address below 2^32, whatever the machine was: a boot loader that reads what
  -- the buffers of the command of `stm32_usart_chunk_available` send, with their checksums, finds both
  -- checksums right and gets the address and the bytes of the chunk.
  pub read_write-sent_summed :
      (m : Machine (Stm32Data E)) (address : ℕ) (buf : List ℕ)
      → 0 < length buf
      → length buf ≤ 256
      → address < 2 ^ 32
      → read_write (
          sent_summed ops
            (write_descr program (length buf))
            (write_descr program (length buf)).cmdbufs
            (write_ready ops program m address buf).memory)
        ≡ some (address, buf)
  read_write-sent_summed m address buf some_byte few small =
      ap read_write (write_frame program ops m address buf)
      ∙ read_write-frame address ((length buf - 1) % 256) buf (omega arith) small

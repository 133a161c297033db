-- ===== src/Avr/Stk500/Frames.antt =====
-- The frames that `_load_address` and `stk500_chunk_available` send, src/target/stk500.c, as a programmer of
-- the STK500 protocol reads them.
use libdfu.Base.{
  ℕ, ◌+◌, ◌*◌, ◌/◌, ◌%◌, ◌^◌, ◌<◌, ◌≡◌, refl, ap, ◌∙◌, Bool, true, false, ◌&&◌, Option, none, some,
  List, [], ◌∷◌, ◌++◌, ◌==◌, if◌then◌else◌, length, take, drop, take_all, arith,
}
use libdfu.Interface.{IfaceOps}
use libdfu.Command.{Memory, CmdBuf, CmdDir, Machine, dir_in, dir_out, dir_out_in, dir_none}
use libdfu.Avr.{DeviceData, Program}
use libdfu.Avr.Stk500.{StkData, page_cmd, result_cmd, descr_of, load_address_bytes, prog_page_bytes}
use libdfu.Avr.Stk500.Target.{address_ready, page_ready}

abbrev sends : CmdDir → Bool
sends dir_in = false
sends dir_out = true
sends dir_out_in = true
sends dir_none = false

-- What the buffers of a command send one after another, if the memory stays as it is.
abbrev pub sent_by : List CmdBuf → Memory → List ℕ
sent_by [] m = []
sent_by (buf ∷ bufs) m =
    let rest = sent_by bufs m in
    if sends buf.dir then take buf.len (m buf.buf_out) ++ rest else rest

-- Cmnd_STK_LOAD_ADDRESS, the number of a word, low byte first, and Sync_CRC_EOP; the result is the
-- address of the byte.
abbrev pub read_address : List ℕ → Option ℕ
read_address (code ∷ low ∷ high ∷ end ∷ []) =
    if code == 85 && end == 32 then some (2 * (high * 256 + low)) else none
read_address bytes = none

abbrev ends_frame : List ℕ → Bool
ends_frame (end ∷ []) = end == 32
ends_frame bytes = false

-- Cmnd_STK_PROG_PAGE, the number of bytes, high byte first, the type of the memory, as many bytes, and
-- Sync_CRC_EOP.
abbrev pub read_page : List ℕ → Option (List ℕ)
read_page (code ∷ high ∷ low ∷ type ∷ rest) =
    let n = high * 256 + low in
    if code == 100 && type == 70 && ends_frame (drop n rest) then some (take n rest) else none
read_page bytes = none

take-append : (xs ys : List ℕ) → take (length xs) (xs ++ ys) ≡ xs
take-append [] ys = refl
take-append (x ∷ xs) ys = ap (λ t. x ∷ t) (take-append xs ys)

drop-append : (xs ys : List ℕ) → drop (length xs) (xs ++ ys) ≡ ys
drop-append [] ys = refl
drop-append (x ∷ xs) ys = drop-append xs ys

module _ {E : Type 0} (program : Program E) (ops : IfaceOps (StkData E)) (dd : DeviceData) where
  address_frame :
      (m : Machine (StkData E)) (addr : ℕ)
      → sent_by
          (descr_of program (result_cmd 4)).cmdbufs
          (address_ready program ops dd m addr).memory
        ≡ load_address_bytes addr
  unfolding load_address_bytes
  address_frame m addr = refl

  page_frame :
      (m : Machine (StkData E)) (addr : ℕ) (buf : List ℕ)
      → sent_by
          (descr_of program (page_cmd (length buf))).cmdbufs
          (page_ready program ops dd addr buf m).memory
        ≡ prog_page_bytes (length buf) ++ (buf ++ (32 ∷ []))
  unfolding prog_page_bytes
  page_frame m addr buf =
      ap (λ t. prog_page_bytes (length buf) ++ (t ++ (32 ∷ [])))
        (take_all (length buf) buf (omega arith))

  -- From an even address below 2^16 and fewer than 2^16 bytes, whatever the machine was: a programmer that
  -- reads what the buffers of the command of `_load_address` send gets that address, and from those of
  -- the command of `stk500_chunk_available` it gets the bytes of the chunk.
  pub frames-eq :
      (m : Machine (StkData E)) (addr : ℕ) (buf : List ℕ)
      → addr % 2 ≡ 0
      → addr < 2 ^ 16
      → length buf < 2 ^ 16
      → (read_address (
            sent_by
              (descr_of program (result_cmd 4)).cmdbufs
              (address_ready program ops dd m addr).memory)
          ≡ some addr)
        × (read_page (
              sent_by
                (descr_of program (page_cmd (length buf))).cmdbufs
                (page_ready program ops dd addr buf m).memory)
            ≡ some buf)
  unfolding load_address_bytes prog_page_bytes
  frames-eq m addr buf even small fits =
      let place : 2 * (addr % 65536 / 2 / 256 * 256 + addr % 65536 / 2 % 256) ≡ addr =
        omega arith in
      let size : length buf / 256 % 256 * 256 + length buf % 256 ≡ length buf = omega arith in
      (
        ap read_address (address_frame m addr) ∙ ap some place,
        ap read_page (page_frame m addr buf)
            ∙ ap
                (λ n.
                  if ends_frame (drop n (buf ++ (32 ∷ [])))
                  then some (take n (buf ++ (32 ∷ [])))
                  else none)
                size
            ∙ rw (drop-append buf (32 ∷ []), take-append buf (32 ∷ [])) refl,
      )

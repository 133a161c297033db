-- ===== src/WriteChunks.antt =====
-- The ring of write chunks, include/dfu-internal.h (`bf_get_write_chunk`, `bf_next_write_chunk`,
-- `bf_put_write_chunk`), and `bf_enqueue_for_writing`, src/binary-file.c. A pointer to a chunk is its
-- index.
pub mod Queue
pub mod Rounds
pub mod Outcome
pub mod Grow
pub mod Fresh
pub mod Within
pub mod Tiling
pub mod Dequeue
use libdfu.Base.{
  ℕ, ◌+◌, ◌-◌, min, Bool, true, false, not, ◌&&◌, ◌||◌, Option, none, some, ◌==◌, ltb, leb,
  if◌then◌else◌, get_or, set, zero, suc,
}
use libdfu.Base.Word.{add32, mask}
use libdfu.BinaryFile.{WriteChunk, BinaryFile, max_chunks, bf_wc_count, bf_wc_space}

-- A slot after `memset`.
abbrev pub blank : WriteChunk
blank = record { addr = 0; start = 0; len = 0; pending = false; write_pending = false }

abbrev pub chunk_at : BinaryFile → ℕ → WriteChunk
chunk_at bf i = get_or bf.write_chunks i blank

abbrev pub set_chunk : BinaryFile → ℕ → WriteChunk → BinaryFile
set_chunk bf i wc = record bf { write_chunks = set bf.write_chunks i wc }

unfoldable pub get_write_chunk : BinaryFile → Option (ℕ × BinaryFile)
get_write_chunk bf =
    if bf_wc_space bf == 0
    then none
    else some (
      bf.write_chunks_head,
      record bf { write_chunks_head = mask (add32 bf.write_chunks_head 1) max_chunks },
    )

unfoldable pub next_write_chunk : BinaryFile → Bool → Option (ℕ × BinaryFile)
next_write_chunk bf ignore_pending =
    let i = bf.write_chunks_tail in
    let wc = chunk_at bf i in
    if bf_wc_count bf == 0
    then none
    else if wc.write_pending || (wc.pending && not ignore_pending)
    then none
    else some (i, set_chunk bf i (record wc { write_pending = true }))

unfoldable pub put_write_chunk : BinaryFile → BinaryFile
put_write_chunk bf =
    let i = bf.write_chunks_tail in
    let wc = chunk_at bf i in
    let freed = set_chunk bf i (record wc { pending = false; write_pending = false }) in
    record freed {
      decoded_tail = mask (add32 wc.start wc.len) bf.decoded_size;
      write_chunks_tail = mask (add32 bf.write_chunks_tail 1) max_chunks;
    }

-- How one round of the loop of `bf_enqueue_for_writing` ends: it returns, or the condition
-- `while (len)` is read with what is left to enqueue.
pub data Round : Type 0 where
  returned : Bool → BinaryFile → Round
  again : ℕ → ℕ → BinaryFile → Round

abbrev last_index : BinaryFile → ℕ
last_index bf = if bf.write_chunks_head == 0 then max_chunks - 1 else bf.write_chunks_head - 1

-- The chunk that the round works on: the last one, if it may still grow, or a fresh one.
pub pick_chunk : Bool → BinaryFile → Option (ℕ × BinaryFile)
pick_chunk ign_al bf =
    if not ign_al && not (bf_wc_count bf == 0) && (chunk_at bf (last_index bf)).pending
    then some (last_index bf, bf)
    else get_write_chunk bf

abbrev advance : BinaryFile → ℕ → BinaryFile
advance bf n = record bf { write_tail = mask (add32 bf.write_tail n) bf.decoded_size }

-- Pending contiguous chunk: it takes all of the data, or is filled up.
pub grow_chunk : ℕ → BinaryFile → ℕ → ℕ → Round
grow_chunk i bf len addr =
    let wc = chunk_at bf i in
    let l = bf.write_chunk_size - wc.len in
    if leb (wc.len + len) bf.write_chunk_size
    then returned true (
        advance
          (set_chunk bf i (record wc {
            len = wc.len + len;
            pending = wc.pending && not (wc.len + len == bf.write_chunk_size);
          }))
          len)
    else again (len - l) (add32 addr l)
        (advance (set_chunk bf i (record wc { len = bf.write_chunk_size; pending = false })) l)

-- New chunk. `mask addr size` is `addr & (size - 1)`. In the source the slot has its new fields also
-- when the address turns out not to be aligned.
pub new_chunk : Bool → ℕ → BinaryFile → ℕ → ℕ → Round
new_chunk ign_al i bf len addr =
    let start = bf.write_tail in
    let l = min len bf.write_chunk_size in
    let n = if ign_al then min l (bf.decoded_size - start) else l in
    let wc = record (chunk_at bf i) { start = start; len = n; addr = addr } in
    if not (bf.write_chunk_size == 0) && not ign_al && not (mask addr bf.write_chunk_size == 0)
    then returned false (set_chunk bf i wc)
    else again (len - n) (add32 addr n) (
        advance (set_chunk bf i (record wc { pending = not ign_al && ltb n bf.write_chunk_size }))
          n)

pub use_chunk : Bool → ℕ → BinaryFile → ℕ → ℕ → Round
use_chunk ign_al i bf len addr =
    let wc = chunk_at bf i in
    if wc.pending && addr == add32 wc.addr wc.len
    then grow_chunk i bf len addr
    else if wc.pending
    then again len addr (set_chunk bf i (record wc { pending = false }))
    else new_chunk ign_al i bf len addr

pub use_picked : Bool → BinaryFile → ℕ → ℕ → Option (ℕ × BinaryFile) → Round
use_picked ign_al bf len addr none = returned false bf
use_picked ign_al bf len addr (some (i, bf')) = use_chunk ign_al i bf' len addr

pub enqueue_round : Bool → BinaryFile → ℕ → ℕ → Round
enqueue_round ign_al bf len addr = use_picked ign_al bf len addr (pick_chunk ign_al bf)

-- `while (len)`, or the return of the round.
pub after_round :
    (BinaryFile → ℕ → ℕ → Option (Bool × BinaryFile)) → Round → Option (Bool × BinaryFile)
after_round loop (returned done bf) = some (done, bf)
after_round loop (again len addr bf) =
    let rest = loop bf len addr in if len == 0 then some (true, bf) else rest

-- do … while (len); `none` is for the fuel to have run out.
pub enqueue_loop : ℕ → Bool → BinaryFile → ℕ → ℕ → Option (Bool × BinaryFile)
enqueue_loop zero ign_al bf len addr = none
enqueue_loop (suc fuel) ign_al bf len addr =
    after_round (enqueue_loop fuel ign_al) (enqueue_round ign_al bf len addr)

-- A round takes a byte at least or closes a chunk, and after a closed chunk comes a new one.
unfoldable pub enqueue_for_writing : Bool → BinaryFile → ℕ → ℕ → Option (Bool × BinaryFile)
unfolding enqueue_loop after_round enqueue_round use_picked pick_chunk get_write_chunk use_chunk
    grow_chunk new_chunk
enqueue_for_writing ign_al bf len addr = enqueue_loop (len + 2) ign_al bf len addr

-- ===== src/Tests/BinaryFile.antt =====
-- Inputs for the buffers and the ring of chunks.
use libdfu.Base.{
  true, ℕ, ◌+◌, ◌-◌, ◌%◌, ◌≤◌, ◌<◌, ◌≡◌, get_or, ap, ◌∷◌, [], refl, false, none, min, replicate,
  length, length-replicate, arith, zero, suc,
}
use libdfu.Base.Word.{IsSize, mask}
use libdfu.BinaryFile.{BinaryFile, bf_wc_count, max_chunks}
use libdfu.Append.{append_data}
use libdfu.Append.Copy.{IsReceiving}
use libdfu.Append.Refine.{Appends, append_refines}
use libdfu.Circular.{count, space, count_to_end, space_to_end}
use libdfu.Circular.Laws.{count_to_end-eq-min, space_to_end-eq-min}
use libdfu.WriteChunks.{blank, chunk_at, enqueue_for_writing, put_write_chunk}
use libdfu.WriteChunks.Queue.{IsQueueing, queue, slot}
use libdfu.WriteChunks.Tiling.{Ends, enqueue_tiles}
use libdfu.WriteChunks.Dequeue.{first, put_write_chunk-dequeues}

eight-IsSize : IsSize 8
eight-IsSize = record { exponent = 3; small = omega arith; power = refl }

count_to_end-eq-min_example : count_to_end 2 6 8 ≡ min (count 2 6 8) (8 - 6)
count_to_end-eq-min_example = count_to_end-eq-min eight-IsSize (omega arith) (omega arith)

space_to_end-eq-min_example : space_to_end 6 2 8 ≡ min (space 6 2 8) (8 - 6)
space_to_end-eq-min_example = space_to_end-eq-min eight-IsSize (omega arith) (omega arith)

-- An empty file behind `_bf_init`, for a target with pages of 128 bytes.
abbrev pub fresh : BinaryFile
fresh = record {
  buf = replicate 2048 0;
  decoded_buf = [];
  head = 0;
  tail = 0;
  written = false;
  really_written = false;
  max_size = 2048;
  rx_done = false;
  flushing = false;
  tot_appended = 0;
  decoded_head = 0;
  decoded_tail = 0;
  write_tail = 0;
  decoded_size = 2048;
  decoded_chunk_size = 0;
  write_chunk_size = 128;
  write_chunks = replicate 32 blank;
  write_chunks_head = 0;
  write_chunks_tail = 0;
  format_ops = none;
  format_data = none;
  entry_point = 0;
}

pub fresh-IsReceiving : IsReceiving fresh
fresh-IsReceiving = record {
  whole = refl;
  storage = omega (arith, length-replicate {A = ℕ} 2048 0);
  head_in = omega arith;
  tail_in = omega arith;
}

append_refines_example :
    Appends fresh
      (1 ∷ 2 ∷ 3 ∷ [])
      (append_data fresh (1 ∷ 2 ∷ 3 ∷ [])).0
      (append_data fresh (1 ∷ 2 ∷ 3 ∷ [])).1
append_refines_example = append_refines fresh (1 ∷ 2 ∷ 3 ∷ []) fresh-IsReceiving

pub two_kib-IsSize : IsSize 2048
two_kib-IsSize = record { exponent = 11; small = omega arith; power = refl }

chunks_size : max_chunks ≤ length fresh.write_chunks
chunks_size = omega (arith, length-replicate 32 blank)

fresh-count : bf_wc_count fresh ≡ 0
unfolding bf_wc_count count mask
fresh-count = refl

blank_slot : (n i : ℕ) → (get_or (replicate n blank) i blank).pending ≡ false
blank_slot zero i = refl
blank_slot (suc n) zero = refl
blank_slot (suc n) (suc i) = blank_slot n i

none_queued : (n : ℕ) → bf_wc_count fresh ≡ suc n → ⊥
none_queued n e = omega (arith, fresh-count)

pub fresh-IsQueueing : IsQueueing fresh
fresh-IsQueueing = record {
  slots = chunks_size;
  head_in = omega arith;
  tail_in = omega arith;
  size = two_kib-IsSize;
  write_in = omega arith;
  page = omega arith;
  quiet = λ k h lt. blank_slot 32 ((0 + k) % 32);
  last_ends = λ n e. absurd (none_queued n e);
  last_short = λ n e. absurd (none_queued n e);
  addr_fits = λ n e. absurd (none_queued n e);
  start_in = λ n e. absurd (none_queued n e);
}

enqueue_tiles_example : Ends true fresh 300 1024 (enqueue_for_writing true fresh 300 1024)
enqueue_tiles_example =
    enqueue_tiles true fresh 300 1024 fresh-IsQueueing (omega arith) (omega arith)

-- One full chunk is queued.
abbrev pub queued : BinaryFile
queued = record fresh {
  write_chunks =
      record { addr = 1024; start = 0; len = 128; pending = false; write_pending = false }
      ∷ replicate 31 blank;
  write_chunks_head = 1;
  decoded_head = 128;
  write_tail = 128;
}

pub queued-count : bf_wc_count queued ≡ 1
unfolding bf_wc_count count mask
queued-count = refl

queued-slot : (n : ℕ) → bf_wc_count queued ≡ suc n → slot queued n ≡ 0
queued-slot n e =
    let first_one : n ≡ 0 = omega (arith, e, queued-count) in ap (slot queued) first_one

queued-quiet :
    (k : ℕ)
    → bf_wc_count queued ≤ k
    → k < max_chunks
    → (chunk_at queued (slot queued k)).pending ≡ false
queued-quiet zero h lt = refl
queued-quiet (suc k) h lt =
    let at : (0 + suc k) % 32 ≡ suc k = omega arith in rw at (blank_slot 31 k)

pub queued-IsQueueing : IsQueueing queued
queued-IsQueueing = record {
  slots = omega (arith, length-replicate 31 blank);
  head_in = omega arith;
  tail_in = omega arith;
  size = two_kib-IsSize;
  write_in = omega arith;
  page = omega arith;
  quiet = queued-quiet;
  last_ends = λ n e. rw (queued-slot n e) (λ p. cc);
  last_short = λ n e. rw (queued-slot n e) (λ p. cc);
  addr_fits = λ n e. rw (queued-slot n e) (omega arith);
  start_in = λ n e. rw (queued-slot n e) (omega arith);
}

put_write_chunk-dequeues_example :
    IsQueueing (put_write_chunk queued)
    × (queue queued ≡ first queued ∷ queue (put_write_chunk queued))
    × ((put_write_chunk queued).decoded_tail ≡ ((first queued).start + (first queued).len) % 2048)
put_write_chunk-dequeues_example =
    put_write_chunk-dequeues queued queued-IsQueueing (omega (arith, queued-count))

-- ===== src/Flow/Init.antt =====
-- `_bf_init` sets up buffers and a ring of chunks that are well formed.
use libdfu.Base.{
  ℕ, zero, suc, ◌+◌, ◌*◌, ◌/◌, ◌%◌, ◌≤◌, ◌<◌, ◌≡◌, refl, sym, ◌∙◌, List, Option, none, some, true,
  false, ltb, length, length-replicate, replicate, get_or, arith,
}
use libdfu.Base.Word.{IsSize, size_bounds, mask}
use libdfu.Circular.{count}
use libdfu.Circular.Laws.{count_lem}
use libdfu.BinaryFile.{BinaryFile, max_chunks, buf_size, bf_count, bf_dec_count, bf_wc_count}
use libdfu.WriteChunks.{blank}
use libdfu.WriteChunks.Queue.{IsQueueing}
use libdfu.Append.Copy.{IsReceiving}
use libdfu.Flow.{init_file, init_chunks, init_rest, reset_buffers}

pub blank_slot : (n i : ℕ) → (get_or (replicate n blank) i blank).pending ≡ false
blank_slot zero i = refl
blank_slot (suc n) zero = refl
blank_slot (suc n) (suc i) = blank_slot n i

-- The receive buffer, the decoded buffer and the ring of chunks are well formed and empty, and the
-- next chunk starts where the next decoded byte goes.
pub record Ready (bf : BinaryFile) : Type 0 where
  pub receiving : IsReceiving bf
  pub queueing : IsQueueing bf
  pub nothing_received : bf_count bf ≡ 0
  pub nothing_decoded : bf_dec_count bf ≡ 0
  pub next_decoded : bf.decoded_head ≡ bf.write_tail
  pub nothing_queued : bf_wc_count bf ≡ 0

bf_wc_count-init_rest : (bf : BinaryFile) → bf_wc_count (init_rest bf) ≡ 0
unfolding init_rest bf_wc_count count mask
bf_wc_count-init_rest bf = refl

bf_count-init_rest : (bf : BinaryFile) → bf.head ≡ 0 → bf.tail ≡ 0 → bf_count (init_rest bf) ≡ 0
unfolding init_rest bf_count count mask
bf_count-init_rest bf head tail = rw (head, tail) refl

bf_dec_count-init_rest :
    (bf : BinaryFile)
    → IsSize bf.decoded_size
    → bf.decoded_head ≡ 0
    → bf.decoded_tail ≡ 0
    → bf_dec_count (init_rest bf) ≡ 0
unfolding init_rest bf_dec_count
bf_dec_count-init_rest bf size head tail =
    rw (head, tail) (count_lem size (size_bounds size).0 (size_bounds size).0)

none_queued : (bf : BinaryFile) (n : ℕ) → bf_wc_count (init_rest bf) ≡ suc n → ⊥
none_queued bf n e = omega (arith, bf_wc_count-init_rest bf, e)

init_rest-Ready :
    (bf : BinaryFile)
    → buf_size ≤ length bf.buf
    → bf.head ≡ 0
    → bf.tail ≡ 0
    → IsSize bf.decoded_size
    → bf.decoded_head ≡ 0
    → bf.decoded_tail ≡ 0
    → bf.write_tail ≡ 0
    → 0 < bf.write_chunk_size
    → Ready (init_rest bf)
unfolding init_rest
init_rest-Ready bf storage head tail size dec_head dec_tail write page = record {
  receiving = record {
    whole = refl;
    storage = storage;
    head_in = rw head (omega arith);
    tail_in = rw tail (omega arith);
  };
  queueing = record {
    slots = omega (arith, length-replicate max_chunks blank);
    head_in = omega arith;
    tail_in = omega arith;
    size = size;
    write_in = rw write (size_bounds size).0;
    page = page;
    quiet = λ k h lt. blank_slot 32 ((0 + k) % 32);
    last_ends = λ n e. absurd (none_queued bf n e);
    last_short = λ n e. absurd (none_queued bf n e);
    addr_fits = λ n e. absurd (none_queued bf n e);
    start_in = λ n e. absurd (none_queued bf n e);
  };
  nothing_received = bf_count-init_rest bf head tail;
  nothing_decoded = bf_dec_count-init_rest bf size dec_head dec_tail;
  next_decoded = dec_head ∙ sym write;
  nothing_queued = bf_wc_count-init_rest bf;
}

-- The part of the decoded buffer that is used.
abbrev pub whole_chunks : ℕ → Option ℕ → ℕ
whole_chunks db_size none = db_size
whole_chunks db_size (some cs) = db_size / cs * cs

abbrev pub Fits : ℕ → Option ℕ → Type 0
Fits db_size none = Unit
Fits db_size (some cs) = (0 < cs) × (cs ≤ db_size)

-- `_bf_init` succeeds where the target asks for no chunk size, or for one that is not 0 and not larger
-- than the decoded buffer. It leaves the receive buffer, the decoded buffer and the ring of chunks
-- empty and well formed, with the next chunk to start where the next decoded byte goes, if the receive
-- buffer has its 2048 bytes and the whole chunks of the decoded buffer make up a power of two.
pub init_file-Ready :
    (bf : BinaryFile) (b db : List ℕ) (db_size : ℕ) (cs : Option ℕ)
    → buf_size ≤ length b
    → IsSize (whole_chunks db_size cs)
    → Fits db_size cs
    → ((init_file bf b db db_size cs).0 ≡ true) × Ready (init_file bf b db db_size cs).1
unfolding init_file init_chunks
init_file-Ready bf b db db_size none storage size fits = (
  refl,
  init_rest-Ready (reset_buffers bf b db db_size) storage refl refl size refl refl refl
      (size_bounds size).0,
)
init_file-Ready bf b db db_size (some cs) storage size fits =
    let enough : ltb db_size cs ≡ false = ground (arith, fits.1) in
    let paged = record (reset_buffers bf b db db_size) {
      write_chunk_size = cs;
      decoded_size = db_size / cs * cs;
    } in
    rw enough (refl, init_rest-Ready paged storage refl refl size refl refl refl fits.0)

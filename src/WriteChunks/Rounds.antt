-- ===== src/WriteChunks/Rounds.antt =====
-- What one round of `bf_enqueue_for_writing` does to the queue: it closes the last chunk, makes it
-- longer, or adds one; and it keeps the ring well formed.
use native.Mathlib.Nat.{mod-lt}
use libdfu.Base.{
  ℕ, suc, ◌+◌, ◌%◌, ◌^◌, ◌≤◌, ◌<◌, ◌≡◌, ◌≢◌, refl, ap, ◌∙◌, true, false, ◌++◌, set, length-set,
  get_or-set_self, get_or-set_ne, arith,
}
use libdfu.BinaryFile.{WriteChunk, BinaryFile, max_chunks, bf_wc_count}
use libdfu.Circular.Window.{window, mod-wrap}
use libdfu.WriteChunks.{blank, chunk_at}
use libdfu.WriteChunks.Queue.{
  IsQueueing, scheduled, slot, span, chunk_bytes, all_bytes, all_bytes-snoc,
}
use libdfu.WriteChunks.Queue.{window-fill}

-- `n` bytes that go to `addr` and on have been scheduled.
pub record Took (bf : BinaryFile) (n addr : ℕ) (bf' : BinaryFile) : Type 0 where
  pub valid : IsQueueing bf'
  pub same_size : bf'.decoded_size ≡ bf.decoded_size
  pub same_page : bf'.write_chunk_size ≡ bf.write_chunk_size
  pub moves : bf'.write_tail ≡ (bf.write_tail + n) % bf.decoded_size
  pub adds : scheduled bf' ≡ scheduled bf ++ span bf.decoded_size bf.write_tail addr n

-- The last chunk of the queue becomes `wc`, behind `n` chunks that stay.
module _ (bf : BinaryFile) (v : IsQueueing bf) (n : ℕ) (wc : WriteChunk) (head write_tail : ℕ) where
  abbrev pub filled : BinaryFile
  filled = record bf {
    write_chunks = set bf.write_chunks (slot bf n) wc;
    write_chunks_head = head;
    write_tail = write_tail;
  }

  module _ (n_in : n < max_chunks) (count_is : bf_wc_count filled ≡ suc n) where
    pub last_is : (k : ℕ) → bf_wc_count filled ≡ suc k → chunk_at filled (slot filled k) ≡ wc
    last_is k e =
        let same : k ≡ n = omega (arith, count_is) in
        let inside = mod-lt (bf.write_chunks_tail + n) {m = max_chunks} (omega arith) in
        ap (λ j. chunk_at filled (slot filled j)) same
        ∙ get_or-set_self bf.write_chunks (slot bf n) wc blank (omega (arith, v.slots, inside))

    still_quiet :
        bf_wc_count bf ≤ suc n
        → (k : ℕ) → bf_wc_count filled ≤ k
        → k < max_chunks
        → (chunk_at filled (slot filled k)).pending ≡ false
    still_quiet before k h lt =
        let apart : slot bf n ≢ slot bf k = ground (
          arith,
          count_is,
          v.tail_in,
          mod-wrap (bf.write_chunks_tail + n) 32,
          mod-wrap (bf.write_chunks_tail + k) 32,
        ) in
        rw (get_or-set_ne bf.write_chunks (slot bf n) (slot bf k) wc blank apart)
          (v.quiet k (omega (arith, count_is)) lt)

    pub filled-Took :
        (m addr : ℕ)
        → bf_wc_count bf ≤ suc n
        → head < max_chunks
        → write_tail ≡ (bf.write_tail + m) % bf.decoded_size
        → (wc.pending ≡ true → (wc.start + wc.len) % bf.decoded_size ≡ write_tail)
        → (wc.pending ≡ true → wc.len < bf.write_chunk_size)
        → wc.addr < 2 ^ 32
        → wc.start < bf.decoded_size
        → all_bytes bf.decoded_size (window blank max_chunks bf.write_chunks bf.write_chunks_tail n)
            ++ chunk_bytes bf.decoded_size wc
          ≡ scheduled bf ++ span bf.decoded_size bf.write_tail addr m
        → Took bf m addr filled
    filled-Took m addr before head_in moved ends short addr_in start_in bytes = record {
      valid = record {
        slots = rw length-set v.slots;
        head_in = head_in;
        tail_in = v.tail_in;
        size = v.size;
        write_in = rw moved (mod-lt (bf.write_tail + m) (omega (arith, v.write_in)));
        page = v.page;
        quiet = still_quiet before;
        last_ends = λ k e. rw (last_is k e) ends;
        last_short = λ k e. rw (last_is k e) short;
        addr_fits = λ k e. rw (last_is k e) addr_in;
        start_in = λ k e. rw (last_is k e) start_in;
      };
      same_size = refl;
      same_page = refl;
      moves = moved;
      adds =
          ap
            (λ c.
              all_bytes bf.decoded_size
                (window blank max_chunks filled.write_chunks bf.write_chunks_tail c))
            count_is
          ∙ ap (all_bytes bf.decoded_size) (window-fill bf v n wc n_in)
          ∙ all_bytes-snoc bf.decoded_size
              (window blank max_chunks bf.write_chunks bf.write_chunks_tail n) wc
          ∙ bytes;
    }

-- ===== src/WriteChunks/Dequeue.antt =====
-- `bf_put_write_chunk` takes the chunk off the queue that the target has written.
use native.Mathlib.Nat.{mod-add-mod}
use libdfu.Base.{
  ℕ, suc, ◌+◌, ◌-◌, ◌%◌, ◌≤◌, ◌<◌, ◌≡◌, ◌≢◌, sym, ap, ap₂, ◌∙◌, false, ◌∷◌, set, ltb, length-set,
  get_or-set_self, get_or-set_ne, arith, Bool-cases, inl, inr,
}
use libdfu.Base.Word.{add32, mask, mask-add32, mask-lt}
use libdfu.BinaryFile.{WriteChunk, BinaryFile, max_chunks, bf_wc_count}
use libdfu.Circular.Window.{window, mod-wrap, window-set_avoid}
use libdfu.WriteChunks.{blank, chunk_at, put_write_chunk}
use libdfu.WriteChunks.Queue.{
  IsQueueing, queue, slot, bf_wc_count-eq, wc_count_is, wc_count-add-space,
}
use libdfu.WriteChunks.Queue.{max_chunks-IsSize}

-- The chunk that is written next.
abbrev pub first : BinaryFile → WriteChunk
first bf = chunk_at bf bf.write_chunks_tail

module _ (bf : BinaryFile) (v : IsQueueing bf) (n : ℕ) (e : bf_wc_count bf ≡ suc n) where
  abbrev freed : WriteChunk
  freed = record (first bf) { pending = false; write_pending = false }

  -- `put_write_chunk bf`, with its assignments in one record.
  abbrev shorter : BinaryFile
  shorter = record bf {
    write_chunks = set bf.write_chunks bf.write_chunks_tail freed;
    decoded_tail = mask (add32 (first bf).start (first bf).len) bf.decoded_size;
    write_chunks_tail = mask (add32 bf.write_chunks_tail 1) max_chunks;
  }

  next_tail : shorter.write_chunks_tail ≡ (bf.write_chunks_tail + 1) % 32
  next_tail = mask-add32 bf.write_chunks_tail 1 max_chunks-IsSize

  count-shorter : bf_wc_count shorter ≡ n
  count-shorter = ground (
    arith,
    e,
    v.head_in,
    v.tail_in,
    wc_count_is bf v,
    next_tail,
    mod-wrap (bf.write_chunks_tail + 1) 32,
    bf_wc_count-eq shorter v.head_in (mask-lt _ max_chunks-IsSize),
  )

  slot-shorter : (k : ℕ) → slot shorter k ≡ slot bf (suc k)
  slot-shorter k =
      ap (λ t. (t + k) % 32) next_tail
      ∙ mod-add-mod (bf.write_chunks_tail + 1) 32 k
      ∙ ap (λ t. t % 32) (omega arith)

  -- The other slots keep their chunks.
  chunk_at-shorter :
      (k : ℕ) → suc k < 32 → chunk_at shorter (slot shorter k) ≡ chunk_at bf (slot bf (suc k))
  chunk_at-shorter k h =
      let apart : bf.write_chunks_tail ≢ slot bf (suc k) =
        ground (arith, v.tail_in, mod-wrap (bf.write_chunks_tail + suc k) 32) in
      ap (chunk_at shorter) (slot-shorter k)
      ∙ get_or-set_ne bf.write_chunks bf.write_chunks_tail (slot bf (suc k)) freed blank apart

  quiet-shorter :
      (k : ℕ)
      → bf_wc_count shorter ≤ k
      → k < max_chunks
      → (chunk_at shorter (slot shorter k)).pending ≡ false
  quiet-shorter k h lt = elim (Bool-cases (ltb k 31)) [
    | inl inner ↦
        let next : suc k < 32 = ground arith in
        rw (chunk_at-shorter k next) (v.quiet (suc k) (omega (arith, count-shorter)) next)
    | inr last ↦
        let at : slot shorter k ≡ bf.write_chunks_tail =
          slot-shorter k ∙ ground (arith, v.tail_in, mod-wrap (bf.write_chunks_tail + suc k) 32) in
        rw at (
          ap (λ (c : WriteChunk). c.pending)
            (get_or-set_self bf.write_chunks bf.write_chunks_tail freed blank
              (omega (arith, v.slots, v.tail_in))))
  ]

  queue-shorter : queue bf ≡ first bf ∷ queue shorter
  queue-shorter =
      ap (window blank 32 bf.write_chunks bf.write_chunks_tail) e
      ∙ ap (λ q. first bf ∷ q)
          (sym (
              window-set_avoid blank 32 bf.write_chunks ((bf.write_chunks_tail + 1) % 32) n
                bf.write_chunks_tail freed (omega arith) apart)
            ∙ ap₂ (window blank 32 shorter.write_chunks) (sym next_tail) (sym count-shorter))
    where
      apart : (k : ℕ) → k < n → ((bf.write_chunks_tail + 1) % 32 + k) % 32 ≢ bf.write_chunks_tail
      apart k h = omega (arith, v.tail_in, wc_count-add-space bf v)

  IsQueueing-shorter : IsQueueing shorter
  IsQueueing-shorter = record {
    slots = rw length-set v.slots;
    head_in = v.head_in;
    tail_in = mask-lt _ max_chunks-IsSize;
    size = v.size;
    write_in = v.write_in;
    page = v.page;
    quiet = quiet-shorter;
    last_ends = λ k c. rw (chunk_at-shorter k (under k c)) (v.last_ends (suc k) (back k c));
    last_short = λ k c. rw (chunk_at-shorter k (under k c)) (v.last_short (suc k) (back k c));
    addr_fits = λ k c. rw (chunk_at-shorter k (under k c)) (v.addr_fits (suc k) (back k c));
    start_in = λ k c. rw (chunk_at-shorter k (under k c)) (v.start_in (suc k) (back k c));
  }
    where
      back : (k : ℕ) → bf_wc_count shorter ≡ suc k → bf_wc_count bf ≡ suc (suc k)
      back k c = omega (arith, count-shorter)

      under : (k : ℕ) → bf_wc_count shorter ≡ suc k → suc k < 32
      under k c = omega (arith, count-shorter, wc_count-add-space bf v)

-- `bf_put_write_chunk` on a well-formed queue that is not empty takes off the first chunk and no
-- other, moves the tail of the decoded buffer to the end of that chunk, and keeps the ring of chunks
-- well formed.
pub put_write_chunk-dequeues :
    (bf : BinaryFile)
    → IsQueueing bf
    → bf_wc_count bf ≢ 0
    → IsQueueing (put_write_chunk bf)
      × (queue bf ≡ first bf ∷ queue (put_write_chunk bf))
      × ((put_write_chunk bf).decoded_tail ≡ ((first bf).start + (first bf).len) % bf.decoded_size)
unfolding put_write_chunk
put_write_chunk-dequeues bf v some_chunk =
    let n = bf_wc_count bf - 1 in
    let e : bf_wc_count bf ≡ suc n = ground arith in
    (
      IsQueueing-shorter bf v n e,
      queue-shorter bf v n e,
      mask-add32 (first bf).start (first bf).len v.size,
    )

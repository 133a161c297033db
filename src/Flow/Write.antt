-- ===== src/Flow/Write.antt =====
-- Sending chunks to the target and freeing them keeps the ring of chunks well formed.
use mathlib.Core.Bool.{true≢false}
use libdfu.Circular.Window.{length-window}
use libdfu.Base.{
  length, take, drop, ℕ, suc, ◌≡◌, ◌≢◌, ◌<◌, ◌≤◌, refl, sym, ap, ◌∙◌, Bool, true, false, not, ◌&&◌,
  ◌||◌, none, some, ◌==◌, set, get_or, get_or-set_self, get_or-set_ne, length-set, arith,
  Bool-cases, inl, inr,
}
use libdfu.BinaryFile.{BinaryFile, WriteChunk, max_chunks, bf_wc_count}
use libdfu.WriteChunks.{blank, chunk_at, set_chunk, next_write_chunk, put_write_chunk}
use libdfu.WriteChunks.Queue.{IsQueueing, slot}
use libdfu.WriteChunks.Dequeue.{put_write_chunk-dequeues}
use libdfu.Flow.{Ops, World, set_rx_timeout, send_chunk, write_next, do_write}

-- Two chunks that differ in `write_pending` at most.
record Alike (a b : WriteChunk) : Type 0 where
  addr : a.addr ≡ b.addr
  start : a.start ≡ b.start
  len : a.len ≡ b.len
  pending : a.pending ≡ b.pending

abbrev flagged : BinaryFile → ℕ → Bool → BinaryFile
flagged bf i flag = set_chunk bf i (record (chunk_at bf i) { write_pending = flag })

module _ (bf : BinaryFile) (i : ℕ) (flag : Bool) (inside : i < max_chunks) (v : IsQueueing bf) where
  chunk_at-Alike : (j : ℕ) → Alike (chunk_at (flagged bf i flag) j) (chunk_at bf j)
  chunk_at-Alike j = elim (Bool-cases (i == j)) [
    | inl here ↦
        let e : i ≡ j = ground (arith, here) in
        let same : get_or (set bf.write_chunks i (record (chunk_at bf i) { write_pending = flag }))
              j blank
            ≡ record (chunk_at bf i) { write_pending = flag } =
          ap
            (λ x.
              get_or (set bf.write_chunks i (record (chunk_at bf i) { write_pending = flag })) x
                blank)
            (sym e)
          ∙ get_or-set_self bf.write_chunks i (record (chunk_at bf i) { write_pending = flag })
              blank (let le : max_chunks ≤ _ = v.slots in omega (arith, le)) in
        rw same (rw e (record { addr = refl; start = refl; len = refl; pending = refl }))
    | inr apart ↦
        let ne : i ≢ j = ground (arith, apart) in
        let same =
          get_or-set_ne bf.write_chunks i j (record (chunk_at bf i) { write_pending = flag }) blank
            ne in
        rw same (record { addr = refl; start = refl; len = refl; pending = refl })
  ]

  flagged-count : bf_wc_count (flagged bf i flag) ≡ bf_wc_count bf
  unfolding bf_wc_count
  flagged-count = refl

  pub flagged-IsQueueing : IsQueueing (flagged bf i flag)
  unfolding bf_wc_count
  flagged-IsQueueing = record {
    slots =
        rw (length-set bf.write_chunks i (record (chunk_at bf i) { write_pending = flag })) v.slots;
    head_in = v.head_in;
    tail_in = v.tail_in;
    size = v.size;
    write_in = v.write_in;
    page = v.page;
    quiet = λ k h lt. (chunk_at-Alike (slot bf k)).pending ∙ v.quiet k h lt;
    last_ends = λ n e p.
        let a = chunk_at-Alike (slot bf n) in
        rw (a.start, a.len) (v.last_ends n e (sym a.pending ∙ p));
    last_short = λ n e p.
        let a = chunk_at-Alike (slot bf n) in rw a.len (v.last_short n e (sym a.pending ∙ p));
    addr_fits = λ n e. rw ((chunk_at-Alike (slot bf n)).addr) (v.addr_fits n e);
    start_in = λ n e. rw ((chunk_at-Alike (slot bf n)).start) (v.start_in n e);
  }

-- What `_bf_do_write` leaves: a ring of chunks that is well formed, and all of the chunks unless it
-- failed, when the first of them is gone.
pub record Wrote (bf : BinaryFile) (ok : Bool) (bf' : BinaryFile) : Type 0 where
  pub valid : IsQueueing bf'
  pub kept : ok ≡ true → bf_wc_count bf' ≡ bf_wc_count bf
  pub dropped : ok ≡ false → bf_wc_count bf ≡ suc (bf_wc_count bf')

Wrote-refl : (bf : BinaryFile) → IsQueueing bf → Wrote bf true bf
Wrote-refl bf v = record { valid = v; kept = λ e. refl; dropped = λ e. absurd (true≢false e) }

put_write_chunk-count :
    (bf : BinaryFile)
    → IsQueueing bf
    → bf_wc_count bf ≢ 0
    → bf_wc_count bf ≡ suc (bf_wc_count (put_write_chunk bf))
put_write_chunk-count bf v some_chunk =
    let (w, q, t) = put_write_chunk-dequeues bf v some_chunk in
    let bf' = put_write_chunk bf in
    sym (length-window blank max_chunks bf.write_chunks bf.write_chunks_tail (bf_wc_count bf))
    ∙ ap length q
    ∙ ap suc
        (length-window blank max_chunks bf'.write_chunks bf'.write_chunks_tail (bf_wc_count bf'))

module _ {D : Type 0} (ops : Ops D) where
  send_chunk-Wrote :
      (w : World D) (i : ℕ)
      → IsQueueing w.file
      → bf_wc_count w.file ≢ 0
      → Wrote w.file (send_chunk ops w i).0 (send_chunk ops w i).1.file
  unfolding send_chunk set_rx_timeout
  send_chunk-Wrote w i v some_chunk =
      let wc = chunk_at w.file i in
      elim (Bool-cases (
        (ops.chunk_available w.device wc.addr
          (take wc.len (drop wc.start w.file.decoded_buf))).0)) [
            | inl accepted ↦ rw accepted (Wrote-refl w.file v)
            | inr refused ↦ rw refused (record {
              valid = (put_write_chunk-dequeues w.file v some_chunk).0;
              kept = λ e. absurd (true≢false (sym e));
              dropped = λ e. put_write_chunk-count w.file v some_chunk;
            })
          ]

  -- The first chunk is marked and offered to the target.
  offer-Wrote :
      (w : World D)
      → IsQueueing w.file
      → bf_wc_count w.file ≢ 0
      → Wrote w.file
          (write_next ops w
            (some (w.file.write_chunks_tail, flagged w.file w.file.write_chunks_tail true))).0
          (write_next ops w
            (some (w.file.write_chunks_tail, flagged w.file w.file.write_chunks_tail true))).1.file
  unfolding write_next bf_wc_count
  offer-Wrote w v some_chunk =
      let i = w.file.write_chunks_tail in
      let bf = flagged w.file i true in
      let marked = flagged-IsQueueing w.file i true v.tail_in v in
      let wc = chunk_at bf i in
      let erase = ops.must_erase w.device wc.addr wc.len in
      elim (Bool-cases erase.0) [
        | inl must ↦ rw must (record {
          valid = flagged-IsQueueing bf i false v.tail_in marked;
          kept = λ e. refl;
          dropped = λ e. absurd (true≢false e);
        })
        | inr clean ↦
            let sent =
              send_chunk-Wrote (record w { file = bf; device = erase.1 }) i marked some_chunk in
            rw clean (record { valid = sent.valid; kept = sent.kept; dropped = sent.dropped })
      ]

  nothing-Wrote :
      (w : World D)
      → IsQueueing w.file
      → Wrote w.file (write_next ops w none).0 (write_next ops w none).1.file
  unfolding write_next
  nothing-Wrote w v = Wrote-refl w.file v

  next-Wrote :
      (w : World D) (ignore_pending : Bool)
      → IsQueueing w.file
      → Wrote w.file
          (write_next ops w (next_write_chunk w.file ignore_pending)).0
          (write_next ops w (next_write_chunk w.file ignore_pending)).1.file
  unfolding next_write_chunk
  next-Wrote w ignore_pending v =
      let wc = chunk_at w.file w.file.write_chunks_tail in
      elim (Bool-cases (bf_wc_count w.file == 0)) [
        | inl empty ↦ rw empty (nothing-Wrote w v)
        | inr some_chunk ↦
            elim (Bool-cases (wc.write_pending || (wc.pending && not ignore_pending))) [
              | inl wait ↦ rw (some_chunk, wait) (nothing-Wrote w v)
              | inr go ↦ rw (some_chunk, go) (offer-Wrote w v (ground (arith, some_chunk)))
            ]
      ]

  -- `_bf_do_write` keeps a well-formed ring of chunks well formed, whatever the target does. Unless it fails no
  -- chunk is lost; if the target refuses a chunk, it fails and one chunk is thrown away.
  pub do_write-Wrote :
      (w : World D) → IsQueueing w.file → Wrote w.file (do_write ops w).0 (do_write ops w).1.file
  unfolding do_write
  do_write-Wrote w v = elim (Bool-cases (ops.busy w.device)) [
    | inl busy ↦ rw busy (Wrote-refl w.file v)
    | inr free ↦ rw free (next-Wrote w (w.file.written && (bf_wc_count w.file == 1)) v)
  ]

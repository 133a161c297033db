-- ===== src/WriteChunks/Fresh.antt =====
-- A round of `bf_enqueue_for_writing` on a fresh chunk.
use libdfu.Base.{
  false, ap, ◌∙◌, ◌++◌, ◌∷◌, [], ℕ, suc, ◌+◌, ◌-◌, ◌%◌, ◌^◌, ◌<◌, ◌≡◌, ◌≢◌, refl, sym, Bool, arith,
  ◌==◌, ltb, if◌then◌else◌, Bool-cases, inl, inr, min, not, ◌&&◌,
}
use libdfu.Base.Word.{add32, mask, mask-add32, mask-wrap, mask-lt}
use libdfu.BinaryFile.{WriteChunk, BinaryFile, max_chunks, bf_wc_count, bf_wc_space}
use libdfu.WriteChunks.{blank, chunk_at, new_chunk, again}
use libdfu.Circular.Window.{window}
use libdfu.WriteChunks.Queue.{IsQueueing, slot, queue, window-fill}
use libdfu.WriteChunks.Queue.{wc_count_is, wc_count-add-space}
use libdfu.WriteChunks.Queue.{max_chunks-IsSize, bf_wc_count-eq}
use libdfu.WriteChunks.Rounds.{Took, filled, filled-Took}
use libdfu.WriteChunks.Outcome.{GoesOn, Goes, open_last-filled}

-- A fresh chunk, where there is one.
module _ (bf : BinaryFile) (v : IsQueueing bf) (space : bf_wc_space bf ≢ 0) where
  abbrev pub fresh_head : ℕ
  fresh_head = mask (add32 bf.write_chunks_head 1) max_chunks

  abbrev pub taken : BinaryFile
  taken = record bf { write_chunks_head = fresh_head }

  fresh_in : bf_wc_count bf < max_chunks
  fresh_in = omega (arith, wc_count-add-space bf v)

  fresh_head_is : fresh_head ≡ (
      if ltb (bf.write_chunks_head + 1) 32
      then bf.write_chunks_head + 1
      else bf.write_chunks_head + 1 - 32)
  fresh_head_is =
      let plain : add32 bf.write_chunks_head 1 ≡ bf.write_chunks_head + 1 =
        omega (arith, v.head_in) in
      rw plain (mask-wrap (bf.write_chunks_head + 1) max_chunks-IsSize (omega (arith, v.head_in)))

  fresh_count :
      (wc : WriteChunk) (tail : ℕ)
      → bf_wc_count (filled bf v (bf_wc_count bf) wc fresh_head tail) ≡ suc (bf_wc_count bf)
  fresh_count wc tail = ground (
    arith,
    v.head_in,
    v.tail_in,
    fresh_head_is,
    wc_count_is bf v,
    wc_count-add-space bf v,
    bf_wc_count-eq (filled bf v (bf_wc_count bf) wc fresh_head tail) (mask-lt _ max_chunks-IsSize)
        v.tail_in,
  )

  module _ (ign_al : Bool) (len addr : ℕ) (in_range : addr < 2 ^ 32) (some_bytes : 0 < len) where
    abbrev pub fresh_len : ℕ
    fresh_len =
        if ign_al
        then min (min len bf.write_chunk_size) (bf.decoded_size - bf.write_tail)
        else min len bf.write_chunk_size

    abbrev pub fresh_chunk : WriteChunk
    fresh_chunk = record (chunk_at bf (slot bf (bf_wc_count bf))) {
      start = bf.write_tail;
      len = fresh_len;
      addr = addr;
      pending = not ign_al && ltb fresh_len bf.write_chunk_size;
    }

    pub fresh-Took : Took bf fresh_len addr (
        filled bf v
          (bf_wc_count bf)
          fresh_chunk
          fresh_head
          (mask (add32 bf.write_tail fresh_len) bf.decoded_size))
    fresh-Took =
        filled-Took bf v (bf_wc_count bf) fresh_chunk fresh_head
          (mask (add32 bf.write_tail fresh_len) bf.decoded_size) fresh_in (fresh_count _ _)
          fresh_len addr (omega arith) (mask-lt _ max_chunks-IsSize) moved (λ e. sym moved)
          (λ e. ground arith) in_range v.write_in refl
      where
        moved :
            mask (add32 bf.write_tail fresh_len) bf.decoded_size
            ≡ (bf.write_tail + fresh_len) % bf.decoded_size
        moved = mask-add32 bf.write_tail fresh_len v.size

    abbrev pub unaligned : Bool
    unaligned =
        not (bf.write_chunk_size == 0) && not ign_al && not (mask addr bf.write_chunk_size == 0)

    pub fresh_some : 0 < fresh_len
    fresh_some = ground (arith, v.page, v.write_in)

    fresh-GoesOn : GoesOn bf len addr (len - fresh_len) (add32 addr fresh_len) (
        filled bf v
          (bf_wc_count bf)
          fresh_chunk
          fresh_head
          (mask (add32 bf.write_tail fresh_len) bf.decoded_size))
    fresh-GoesOn = record {
      n = fresh_len;
      left = ground arith;
      next = refl;
      took = fresh-Took;
      fewer = λ left. ground (
        arith,
        fresh_some,
        open_last-filled bf v (bf_wc_count bf) fresh_chunk fresh_head
            (mask (add32 bf.write_tail fresh_len) bf.decoded_size) fresh_in (fresh_count _ _)
            fresh-Took.valid,
      );
    }

    pub new-Goes :
        (i : ℕ)
        → i ≡ slot bf (bf_wc_count bf)
        → Goes bf len addr (new_chunk ign_al i taken len addr)
    unfolding new_chunk
    new-Goes i e =
        rw e (elim (Bool-cases unaligned) [ inl bad ↦ rw bad tt | inr good ↦ rw good fresh-GoesOn ])

    abbrev pub fresh_file : BinaryFile
    fresh_file =
        filled bf v (bf_wc_count bf) fresh_chunk fresh_head
          (mask (add32 bf.write_tail fresh_len) bf.decoded_size)

    pub new_chunk-goes_on :
        (i : ℕ)
        → i ≡ slot bf (bf_wc_count bf)
        → unaligned ≡ false
        → new_chunk ign_al i taken len addr
          ≡ again (len - fresh_len) (add32 addr fresh_len) fresh_file
    unfolding new_chunk
    new_chunk-goes_on i e good = rw (e, good) refl

    -- The fresh chunk stands behind those of the queue.
    pub fresh-chunks : queue fresh_file ≡ queue bf ++ (fresh_chunk ∷ [])
    fresh-chunks =
        ap (window blank max_chunks fresh_file.write_chunks bf.write_chunks_tail) (fresh_count _ _)
        ∙ window-fill bf v (bf_wc_count bf) fresh_chunk fresh_in

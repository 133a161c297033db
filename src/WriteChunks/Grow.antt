-- ===== src/WriteChunks/Grow.antt =====
-- A round of `bf_enqueue_for_writing` on a pending last chunk: the chunk grows or is closed.
use native.Mathlib.Nat.{add-zero, mod-eq_of_lt, mod-add-mod}
use libdfu.Base.{
  append-nil, ℕ, suc, ◌+◌, ◌-◌, ◌%◌, ◌^◌, ◌<◌, ◌≡◌, refl, sym, ap, ap₂, ◌∙◌, append_assoc, true,
  false, Bool, List, ◌++◌, arith, ◌==◌, leb, Bool-cases, inl, inr, not, ◌&&◌,
}
use libdfu.Base.Word.{add32, mask, mask-add32}
use libdfu.BinaryFile.{WriteChunk, BinaryFile, max_chunks, bf_wc_count}
use libdfu.Circular.Window.{window}
use libdfu.WriteChunks.{blank, chunk_at, set_chunk, again, grow_chunk}
use libdfu.WriteChunks.Queue.{IsQueueing, scheduled, slot, span, chunk_bytes, all_bytes}
use libdfu.WriteChunks.Queue.{wc_count-add-space, scheduled-last, span-add}
use libdfu.WriteChunks.Rounds.{Took, filled, filled-Took}
use libdfu.WriteChunks.Outcome.{open_last, Goes, open_last_is, open_last-filled}

-- A pending last chunk.
module _ (bf : BinaryFile) (v : IsQueueing bf) where
  module _ (n len addr : ℕ) (in_range : addr < 2 ^ 32) (some_bytes : 0 < len)
      (count_is : bf_wc_count bf ≡ suc n) (grows : (chunk_at bf (slot bf n)).pending ≡ true) where
    abbrev pub last : WriteChunk
    last = chunk_at bf (slot bf n)

    n_in : n < max_chunks
    n_in = omega (arith, wc_count-add-space bf v)

    was_open : open_last bf ≡ 1
    was_open = rw (open_last_is bf v n count_is, grows)

    same_count :
        (wc : WriteChunk) (tail : ℕ)
        → bf_wc_count (filled bf v n wc bf.write_chunks_head tail) ≡ suc n
    unfolding bf_wc_count
    same_count wc tail = count_is

    closed_Took :
        Took bf 0 addr
          (filled bf v n (record last { pending = false }) bf.write_chunks_head bf.write_tail)
    closed_Took =
        filled-Took bf v n (record last { pending = false }) bf.write_chunks_head bf.write_tail n_in
          (same_count _ _) 0 addr (omega (arith, count_is)) v.head_in
          (rw add-zero (sym (mod-eq_of_lt v.write_in))) (λ e. cc) (λ e. cc) (v.addr_fits n count_is)
          (v.start_in n count_is)
          (sym (scheduled-last bf v n count_is) ∙ sym (append-nil (scheduled bf)))

    pub close-Goes :
        Goes bf len addr
          (again len addr (set_chunk bf (slot bf n) (record last { pending = false })))
    close-Goes = record {
      n = 0;
      left = omega arith;
      next = omega arith;
      took = closed_Took;
      fewer = λ more. omega (
        arith,
        was_open,
        open_last-filled bf v n (record last { pending = false }) bf.write_chunks_head bf.write_tail
            n_in (same_count _ _) closed_Took.valid,
      );
    }

    -- The chunk made longer by `m` bytes.
    grown-Took :
        (m l : ℕ) (p : Bool)
        → addr ≡ add32 last.addr last.len
        → l ≡ last.len + m
        → (p ≡ true → l < bf.write_chunk_size)
        → Took bf m addr (
            filled bf v n
              (record last { len = l; pending = p })
              bf.write_chunks_head
              (mask (add32 bf.write_tail m) bf.decoded_size))
    grown-Took m l p contiguous longer short =
        filled-Took bf v n (record last { len = l; pending = p }) bf.write_chunks_head
          (mask (add32 bf.write_tail m) bf.decoded_size) n_in (same_count _ _) m addr
          (omega (arith, count_is)) v.head_in moved (λ e. ends) short (v.addr_fits n count_is)
          (v.start_in n count_is) bytes
      where
        moved : mask (add32 bf.write_tail m) bf.decoded_size ≡ (bf.write_tail + m) % bf.decoded_size
        moved = mask-add32 bf.write_tail m v.size

        ends : (last.start + l) % bf.decoded_size ≡ mask (add32 bf.write_tail m) bf.decoded_size
        ends =
            let sum : last.start + l ≡ last.start + last.len + m = omega arith in
            ap (λ t. t % bf.decoded_size) sum
            ∙ sym (mod-add-mod (last.start + last.len) bf.decoded_size m)
            ∙ ap (λ t. (t + m) % bf.decoded_size) (v.last_ends n count_is grows)
            ∙ sym moved

        extended :
            span bf.decoded_size last.start last.addr l
            ≡ chunk_bytes bf.decoded_size last ++ span bf.decoded_size bf.write_tail addr m
        extended =
            ap (span bf.decoded_size last.start last.addr) longer
            ∙ span-add bf.decoded_size last.start last.addr last.len m (v.start_in n count_is)
                (v.addr_fits n count_is)
            ∙ ap₂ (λ s t. chunk_bytes bf.decoded_size last ++ span bf.decoded_size s t m)
                (v.last_ends n count_is grows) (sym contiguous)

        others : List (ℕ × ℕ)
        others =
            all_bytes bf.decoded_size
              (window blank max_chunks bf.write_chunks bf.write_chunks_tail n)

        bytes :
            others ++ span bf.decoded_size last.start last.addr l
            ≡ scheduled bf ++ span bf.decoded_size bf.write_tail addr m
        bytes =
            ap (λ t. others ++ t) extended
            ∙ sym (
                append_assoc others (chunk_bytes bf.decoded_size last)
                  (span bf.decoded_size bf.write_tail addr m))
            ∙ ap (λ t. t ++ span bf.decoded_size bf.write_tail addr m)
                (sym (scheduled-last bf v n count_is))

    pub grow-Goes :
        addr ≡ add32 last.addr last.len → Goes bf len addr (grow_chunk (slot bf n) bf len addr)
    unfolding grow_chunk
    grow-Goes contiguous = elim (Bool-cases (leb (last.len + len) bf.write_chunk_size)) [
      | inl whole ↦ rw whole (
          grown-Took len (last.len + len)
            (last.pending && not (last.len + len == bf.write_chunk_size)) contiguous refl
            (λ e. ground arith))
      | inr more ↦ rw more (
          let m = bf.write_chunk_size - last.len in
          let short = v.last_short n count_is grows in
          let took = grown-Took m bf.write_chunk_size false contiguous (omega arith) (λ e. cc) in
          record {
            n = m;
            left = ground arith;
            next = refl;
            took = took;
            fewer = λ left. omega (
              arith,
              was_open,
              open_last-filled bf v n (record last { len = bf.write_chunk_size; pending = false })
                  bf.write_chunks_head (mask (add32 bf.write_tail m) bf.decoded_size) n_in
                  (same_count _ _) took.valid,
            );
          })
    ]

-- ===== src/WriteChunks/Within.antt =====
-- `bf_enqueue_for_writing` for a target that ignores alignment: each chunk it adds is cut at the end
-- of the decoded buffer, of which `do_write` hands out `&decoded_buf[start]` and `len`.
use libdfu.Base.{
  ℕ, zero, suc, ◌+◌, ◌-◌, ◌^◌, ◌≤◌, ◌<◌, ◌≡◌, ◌≢◌, sym, ap, ◌∙◌, true, false, Bool, List, [], ◌∷◌,
  ◌++◌, append-nil, append_assoc, arith, ◌==◌, Bool-cases, inl, inr, Option, none, some, refl,
}
use libdfu.Base.Word.{add32}
use libdfu.BinaryFile.{WriteChunk, BinaryFile, bf_wc_count, bf_wc_space}
use libdfu.WriteChunks.{
  chunk_at, returned, again, pick_chunk, use_chunk, enqueue_round, get_write_chunk, use_picked,
  after_round, enqueue_loop,
}
use libdfu.WriteChunks.Queue.{IsQueueing, queue, head-slot, wc_count-add-space}
use libdfu.WriteChunks.Fresh.{
  fresh_len, fresh_chunk, fresh-Took, fresh_some, fresh-chunks, fresh_file, unaligned,
  new_chunk-goes_on,
}

-- Chunks that are not empty and lie in a buffer of `size` bytes, from their start to their end.
abbrev pub AllInside : ℕ → List WriteChunk → Type 0
AllInside size [] = Unit
AllInside size (wc ∷ wcs) = (0 < wc.len) × (wc.start + wc.len ≤ size) × AllInside size wcs

-- What was queued stays as it was, and behind it are chunks that lie in the decoded buffer.
pub record Appended (bf bf' : BinaryFile) : Type 0 where
  pub added : List WriteChunk
  pub behind : queue bf' ≡ queue bf ++ added
  pub inside : AllInside bf.decoded_size added

abbrev pub Appends : BinaryFile → Option (Bool × BinaryFile) → Type 0
Appends bf none = Unit
Appends bf (some (done, bf')) = Appended bf bf'

Appended-refl : (bf : BinaryFile) → Appended bf bf
Appended-refl bf = record { added = []; behind = sym (append-nil (queue bf)); inside = tt }

module _ (bf : BinaryFile) (v : IsQueueing bf) (len addr : ℕ) (h : addr < 2 ^ 32)
    (some_bytes : 0 < len) where
  round-full : bf_wc_space bf ≡ 0 → enqueue_round true bf len addr ≡ returned false bf
  unfolding enqueue_round use_picked pick_chunk get_write_chunk
  round-full full =
      let none_free : (bf_wc_space bf == 0) ≡ true = ground (arith, full) in rw none_free refl

  module _ (space : bf_wc_space bf ≢ 0) where
    abbrev next : BinaryFile
    next = fresh_file bf v space true len addr h some_bytes

    abbrev n : ℕ
    n = fresh_len bf v space true len addr h some_bytes

    round-fresh : enqueue_round true bf len addr ≡ again (len - n) (add32 addr n) next
    unfolding enqueue_round use_picked pick_chunk get_write_chunk use_chunk
    round-fresh =
        let room : (bf_wc_space bf == 0) ≡ false = ground (arith, space) in
        let quiet : (chunk_at bf bf.write_chunks_head).pending ≡ false =
          rw (head-slot bf v) at
            (v.quiet (bf_wc_count bf) (omega arith) (omega (arith, wc_count-add-space bf v))) in
        let aligned : unaligned bf v space true len addr h some_bytes ≡ false = ground arith in
        rw (room, quiet)
          (new_chunk-goes_on bf v space true len addr h some_bytes bf.write_chunks_head
            (sym (head-slot bf v)) aligned)

    Appended-next : (o : Option (Bool × BinaryFile)) → Appends next o → Appends bf o
    Appended-next none a = tt
    Appended-next (some (done, bf')) a = record {
      added = fresh_chunk bf v space true len addr h some_bytes ∷ a.added;
      behind =
          a.behind
          ∙ ap (λ q. q ++ a.added) (fresh-chunks bf v space true len addr h some_bytes)
          ∙ append_assoc (queue bf) (fresh_chunk bf v space true len addr h some_bytes ∷ [])
              a.added;
      inside =
          (fresh_some bf v space true len addr h some_bytes, ground (arith, v.write_in), a.inside);
    }

pub loop-Appends :
    (fuel : ℕ) (bf : BinaryFile) (len addr : ℕ)
    → IsQueueing bf
    → addr < 2 ^ 32
    → 0 < len
    → Appends bf (enqueue_loop fuel true bf len addr)
unfolding enqueue_loop after_round
loop-Appends zero bf len addr v h some_bytes = tt
loop-Appends (suc fuel) bf len addr v h some_bytes = elim (Bool-cases (bf_wc_space bf == 0)) [
  | inl full ↦ rw (round-full bf v len addr h some_bytes (ground (arith, full))) (Appended-refl bf)
  | inr room ↦
      let space : bf_wc_space bf ≢ 0 = ground (arith, room) in
      let bf' = next bf v len addr h some_bytes space in
      let m = n bf v len addr h some_bytes space in
      rw (round-fresh bf v len addr h some_bytes space) (elim (Bool-cases (len - m == 0)) [
        | inl end ↦
            rw end (
              Appended-next bf v len addr h some_bytes space (some (true, bf')) (Appended-refl bf'))
        | inr more ↦ rw more (
            Appended-next bf v len addr h some_bytes space
              (enqueue_loop fuel true bf' (len - m) (add32 addr m))
              (loop-Appends fuel bf' (len - m) (add32 addr m)
                (fresh-Took bf v space true len addr h some_bytes).valid (omega arith)
                (ground (arith, more))))
      ])
]

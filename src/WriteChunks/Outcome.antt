-- ===== src/WriteChunks/Outcome.antt =====
-- How a round of `bf_enqueue_for_writing` may end, and the measure that falls: the bytes left, and
-- whether the last queued chunk may still grow.
use libdfu.Base.{ℕ, suc, ◌+◌, ◌<◌, ◌≡◌, ap, ◌∙◌, true, false, arith, ◌==◌, if◌then◌else◌}
use libdfu.Base.Word.{add32}
use libdfu.BinaryFile.{WriteChunk, BinaryFile, max_chunks, bf_wc_count}
use libdfu.Circular.Window.{mod-wrap}
use libdfu.WriteChunks.{chunk_at, Round, returned, again, last_index}
use libdfu.WriteChunks.Queue.{IsQueueing, slot}
use libdfu.WriteChunks.Queue.{wc_count_is}
use libdfu.WriteChunks.Rounds.{Took, filled, last_is}

-- The last queued chunk may still grow.
abbrev pub open_last : BinaryFile → ℕ
open_last bf =
    if bf_wc_count bf == 0 then 0 else if (chunk_at bf (last_index bf)).pending then 1 else 0

-- The rounds that are left at most.
abbrev pub rounds : BinaryFile → ℕ → ℕ
rounds bf len = len + open_last bf

-- A round went on with `len'` bytes for `addr'`, and has scheduled the `n` bytes before them.
pub record GoesOn (bf : BinaryFile) (len addr len' addr' : ℕ) (bf' : BinaryFile) : Type 0 where
  pub n : ℕ
  pub left : len' + n ≡ len
  pub next : addr' ≡ add32 addr n
  pub took : Took bf n addr bf'
  pub fewer : 0 < len' → rounds bf' len' < rounds bf len

abbrev pub Goes : BinaryFile → ℕ → ℕ → Round → Type 0
Goes bf len addr (returned true bf') = Took bf len addr bf'
Goes bf len addr (returned false bf') = Unit
Goes bf len addr (again len' addr' bf') = GoesOn bf len addr len' addr' bf'

module _ (bf : BinaryFile) (v : IsQueueing bf) where
  pub last_index-slot : (n : ℕ) → bf_wc_count bf ≡ suc n → last_index bf ≡ slot bf n
  last_index-slot n e =
      ground (arith, v.head_in, v.tail_in, wc_count_is bf v, mod-wrap (bf.write_chunks_tail + n) 32)

  pub open_last_is :
      (n : ℕ)
      → bf_wc_count bf ≡ suc n
      → open_last bf ≡ (if (chunk_at bf (slot bf n)).pending then 1 else 0)
  open_last_is n e =
      let queued : (bf_wc_count bf == 0) ≡ false = ground arith in rw (queued, last_index-slot n e)

module _ (bf : BinaryFile) (v : IsQueueing bf) where
  pub open_last-filled :
      (n : ℕ) (wc : WriteChunk) (head write_tail : ℕ)
      → n < max_chunks
      → bf_wc_count (filled bf v n wc head write_tail) ≡ suc n
      → IsQueueing (filled bf v n wc head write_tail)
      → open_last (filled bf v n wc head write_tail) ≡ (if wc.pending then 1 else 0)
  open_last-filled n wc head write_tail n_in e w =
      open_last_is (filled bf v n wc head write_tail) w n e
      ∙ ap (λ (c : WriteChunk). if c.pending then 1 else 0)
          (last_is bf v n wc head write_tail n_in e n e)

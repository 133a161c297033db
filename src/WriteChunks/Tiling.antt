-- ===== src/WriteChunks/Tiling.antt =====
-- `bf_enqueue_for_writing` schedules each of the decoded bytes once, in order, to consecutive flash
-- addresses, and its loop ends.
use native.Mathlib.Nat.{mod-add-mod}
use libdfu.Base.{
  ℕ, zero, suc, ◌+◌, ◌-◌, ◌%◌, ◌^◌, ◌<◌, ◌≡◌, ◌≢◌, sym, ap, ap₂, ◌∙◌, append_assoc, true, false,
  Bool, ◌++◌, arith, ◌==◌, ==_iff, Bool-cases, inl, inr, not, ◌&&◌, Option, none, some,
}
use libdfu.Base.Word.{add32, mask}
use libdfu.BinaryFile.{BinaryFile, max_chunks, bf_wc_count, bf_wc_space}
use libdfu.WriteChunks.{
  chunk_at, Round, returned, again, last_index, pick_chunk, use_chunk, enqueue_round,
  get_write_chunk, use_picked, after_round, enqueue_loop, enqueue_for_writing,
}
use libdfu.WriteChunks.Queue.{IsQueueing, scheduled, slot, span}
use libdfu.WriteChunks.Queue.{wc_count-add-space, head-slot, span-add}
use libdfu.WriteChunks.Rounds.{Took}
use libdfu.WriteChunks.Outcome.{rounds, Goes, last_index-slot}
use libdfu.WriteChunks.Grow.{grow-Goes, close-Goes}
use libdfu.WriteChunks.Fresh.{new-Goes}
use libdfu.WriteChunks.Within.{Appended, Appends, loop-Appends}

module _ (bf : BinaryFile) (v : IsQueueing bf) (ign_al : Bool) (len addr : ℕ) where
  use-Goes_pending :
      (n i : ℕ)
      → addr < 2 ^ 32
      → 0 < len
      → bf_wc_count bf ≡ suc n
      → i ≡ slot bf n
      → (chunk_at bf i).pending ≡ true
      → Goes bf len addr (use_chunk ign_al i bf len addr)
  unfolding use_chunk
  use-Goes_pending n i in_range some_bytes e at grows =
      let grows' : (chunk_at bf (slot bf n)).pending ≡ true = rw at at grows in
      let wc = chunk_at bf (slot bf n) in
      rw (at, grows')
        (elim (Bool-cases (addr == add32 wc.addr wc.len)) [
          | inl contiguous ↦ rw contiguous (
              grow-Goes bf v n len addr in_range some_bytes e grows'
                ((==_iff addr (add32 wc.addr wc.len)).0 contiguous))
          | inr jump ↦ rw jump (close-Goes bf v n len addr in_range some_bytes e grows')
        ])

  use-Goes_fresh :
      bf_wc_space bf ≢ 0
      → addr < 2 ^ 32
      → 0 < len
      → Goes bf len addr (
          use_chunk ign_al bf.write_chunks_head
            (record bf { write_chunks_head = mask (add32 bf.write_chunks_head 1) max_chunks })
            len
            addr)
  unfolding use_chunk
  use-Goes_fresh space in_range some_bytes =
      let quiet : (chunk_at bf bf.write_chunks_head).pending ≡ false =
        rw (head-slot bf v) at
          (v.quiet (bf_wc_count bf) (omega arith) (omega (arith, wc_count-add-space bf v))) in
      rw (quiet) (
        new-Goes bf v space ign_al len addr in_range some_bytes bf.write_chunks_head
          (sym (head-slot bf v)))

  abbrev grows : Bool
  grows = not ign_al && not (bf_wc_count bf == 0) && (chunk_at bf (last_index bf)).pending

  -- A chunk that may grow is the last one of a queue that is not empty.
  grows_parts :
      grows ≡ true
      → (n : ℕ) × (bf_wc_count bf ≡ suc n) × ((chunk_at bf (last_index bf)).pending ≡ true)
  grows_parts e = (bf_wc_count bf - 1, ground arith, ground arith)

  pick-grows : grows ≡ true → pick_chunk ign_al bf ≡ some (last_index bf, bf)
  unfolding pick_chunk
  pick-grows e = rw e

  pick-full : grows ≡ false → (bf_wc_space bf == 0) ≡ true → pick_chunk ign_al bf ≡ none
  unfolding pick_chunk get_write_chunk
  pick-full e full = rw (e, full)

  pick-fresh :
      grows ≡ false
      → (bf_wc_space bf == 0) ≡ false
      → pick_chunk ign_al bf
        ≡ some (
          bf.write_chunks_head,
          record bf { write_chunks_head = mask (add32 bf.write_chunks_head 1) max_chunks },
        )
  unfolding pick_chunk get_write_chunk
  pick-fresh e room = rw (e, room)

  growing-Goes :
      addr < 2 ^ 32 → 0 < len → grows ≡ true → Goes bf len addr (enqueue_round ign_al bf len addr)
  unfolding enqueue_round use_picked
  growing-Goes in_range some_bytes e =
      let (n, count_is, pending) = grows_parts e in
      rw (pick-grows e) (
        use-Goes_pending n (last_index bf) in_range some_bytes count_is
          (last_index-slot bf v n count_is) pending)

  fresh-Goes :
      addr < 2 ^ 32 → 0 < len → grows ≡ false → Goes bf len addr (enqueue_round ign_al bf len addr)
  unfolding enqueue_round use_picked
  fresh-Goes in_range some_bytes e = elim (Bool-cases (bf_wc_space bf == 0)) [
    | inl full ↦ rw (pick-full e full) tt
    | inr room ↦ rw (pick-fresh e room) (use-Goes_fresh (ground arith) in_range some_bytes)
  ]

  pub enqueue_round-Goes :
      addr < 2 ^ 32 → 0 < len → Goes bf len addr (enqueue_round ign_al bf len addr)
  enqueue_round-Goes in_range some_bytes = elim (Bool-cases grows) [
    | inl e ↦ growing-Goes in_range some_bytes e
    | inr e ↦ fresh-Goes in_range some_bytes e
  ]

-- Bytes taken in two goes are bytes taken at once.
Took-trans :
    {bf mid bf' : BinaryFile} {n m addr : ℕ}
    → bf.write_tail < bf.decoded_size
    → addr < 2 ^ 32
    → Took bf n addr mid
    → Took mid m (add32 addr n) bf'
    → Took bf (n + m) addr bf'
Took-trans {bf} {mid} {bf'} {n} {m} {addr} h k t u = record {
  valid = u.valid;
  same_size = u.same_size ∙ t.same_size;
  same_page = u.same_page ∙ t.same_page;
  moves =
      u.moves
      ∙ ap₂ (λ w s. (w + m) % s) t.moves t.same_size
      ∙ mod-add-mod (bf.write_tail + n) bf.decoded_size m
      ∙ ap (λ w. w % bf.decoded_size) (omega arith);
  adds =
      u.adds
      ∙ ap₂ (λ s w. scheduled mid ++ span s w (add32 addr n) m) t.same_size t.moves
      ∙ ap (λ l. l ++ span bf.decoded_size ((bf.write_tail + n) % bf.decoded_size) (add32 addr n) m)
          t.adds
      ∙ append_assoc (scheduled bf) (span bf.decoded_size bf.write_tail addr n)
          (span bf.decoded_size ((bf.write_tail + n) % bf.decoded_size) (add32 addr n) m)
      ∙ ap (λ l. scheduled bf ++ l) (sym (span-add bf.decoded_size bf.write_tail addr n m h k));
}

-- The loop returned, and if it did not fail it has scheduled all of the data.
abbrev Takes : BinaryFile → ℕ → ℕ → Option (Bool × BinaryFile) → Type 0
Takes bf len addr none = ⊥
Takes bf len addr (some (true, bf')) = Took bf len addr bf'
Takes bf len addr (some (false, bf')) = Unit

after_round-Takes :
    (bf : BinaryFile) (len addr : ℕ) (loop : BinaryFile → ℕ → ℕ → Option (Bool × BinaryFile))
    (r : Round)
    → IsQueueing bf
    → addr < 2 ^ 32
    → Goes bf len addr r
    → ((bf' : BinaryFile) (len' addr' : ℕ)
        → IsQueueing bf'
        → addr' < 2 ^ 32
        → 0 < len'
        → rounds bf' len' < rounds bf len
        → Takes bf' len' addr' (loop bf' len' addr'))
    → Takes bf len addr (after_round loop r)
unfolding after_round
after_round-Takes bf len addr loop (returned true bf') v h g ih = g
after_round-Takes bf len addr loop (returned false bf') v h g ih = tt
after_round-Takes bf len addr loop (again len' addr' bf') v h g ih = elim (Bool-cases (len' == 0)) [
  | inl end ↦ let all : g.n ≡ len = ground (arith, g.left) in rw end (rw all at g.took)
  | inr more ↦
      let left : 0 < len' = ground arith in
      let next_in : addr' < 2 ^ 32 = rw g.next (omega arith) in
      rw more (
        Takes-trans (loop bf' len' addr')
          (ih bf' len' addr' g.took.valid next_in left (g.fewer left)))
]
  where
    Takes-trans : (o : Option (Bool × BinaryFile)) → Takes bf' len' addr' o → Takes bf len addr o
    Takes-trans none e = e
    Takes-trans (some (true, last)) t =
        let sum : g.n + len' ≡ len = omega (arith, g.left) in
        rw sum at (Took-trans v.write_in h g.took (rw g.next at t))
    Takes-trans (some (false, last)) e = tt

loop-Takes :
    (fuel : ℕ) (ign_al : Bool) (bf : BinaryFile) (len addr : ℕ)
    → IsQueueing bf
    → addr < 2 ^ 32
    → 0 < len
    → rounds bf len < fuel
    → Takes bf len addr (enqueue_loop fuel ign_al bf len addr)
unfolding enqueue_loop
loop-Takes zero ign_al bf len addr v h some_bytes enough = absurd (omega arith)
loop-Takes (suc fuel) ign_al bf len addr v h some_bytes enough =
    after_round-Takes bf len addr (enqueue_loop fuel ign_al) (enqueue_round ign_al bf len addr) v h
      (enqueue_round-Goes bf v ign_al len addr h some_bytes)
      (λ bf' len' addr' w h' left fewer.
        loop-Takes fuel ign_al bf' len' addr' w h' left (omega arith))

-- Where alignment is ignored, the chunks that are added lie in the decoded buffer.
abbrev Cut : Bool → BinaryFile → BinaryFile → Type 0
Cut true bf bf' = Appended bf bf'
Cut false bf bf' = Unit

-- The loop returned; if it did not fail it has scheduled all of the data.
abbrev pub Ends : Bool → BinaryFile → ℕ → ℕ → Option (Bool × BinaryFile) → Type 0
Ends ign_al bf len addr none = ⊥
Ends ign_al bf len addr (some (true, bf')) = Took bf len addr bf' × Cut ign_al bf bf'
Ends ign_al bf len addr (some (false, bf')) = Cut ign_al bf bf'

Takes-Appends :
    (bf : BinaryFile) (len addr : ℕ) (o : Option (Bool × BinaryFile))
    → Takes bf len addr o
    → Appends bf o
    → Ends true bf len addr o
Takes-Appends bf len addr none t a = t
Takes-Appends bf len addr (some (true, bf')) t a = (t, a)
Takes-Appends bf len addr (some (false, bf')) t a = a

Takes-Ends :
    (bf : BinaryFile) (len addr : ℕ) (o : Option (Bool × BinaryFile))
    → Takes bf len addr o
    → Ends false bf len addr o
Takes-Ends bf len addr none t = t
Takes-Ends bf len addr (some (true, bf')) t = (t, tt)
Takes-Ends bf len addr (some (false, bf')) t = tt

-- From a well-formed ring of chunks, for a length that is not 0 and an address below 2^32, the loop of
-- `bf_enqueue_for_writing` ends, with alignment ignored or not. Unless the function
-- returns an error, it has added to the schedule exactly the `len` next bytes of the decoded buffer,
-- in order and each once, for the flash addresses from `addr` on; `write_tail` has moved over them,
-- and the ring of chunks is well formed. Where alignment is ignored, the chunks that were queued are
-- left as they were, with an error too, and each chunk that is added has a byte at least and ends
-- within the decoded buffer.
pub enqueue_tiles :
    (ign_al : Bool) (bf : BinaryFile) (len addr : ℕ)
    → IsQueueing bf
    → addr < 2 ^ 32
    → 0 < len
    → Ends ign_al bf len addr (enqueue_for_writing ign_al bf len addr)
unfolding enqueue_for_writing
enqueue_tiles false bf len addr v h some_bytes =
    Takes-Ends bf len addr _ (loop-Takes (len + 2) false bf len addr v h some_bytes (ground arith))
enqueue_tiles true bf len addr v h some_bytes =
    Takes-Appends bf len addr _
      (loop-Takes (len + 2) true bf len addr v h some_bytes (ground arith))
      (loop-Appends (len + 2) bf len addr v h some_bytes)

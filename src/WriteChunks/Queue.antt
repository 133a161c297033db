-- ===== src/WriteChunks/Queue.antt =====
-- The ring of write chunks as a queue, and what the queue asks the target to write: for each decoded
-- byte its place in the decoded buffer and the flash address it goes to.
use native.Mathlib.Nat.{mod-lt, mod-eq_of_lt, mod-add-mod, add-zero}
use libdfu.Base.{
  ℕ, zero, suc, ◌+◌, ◌-◌, ◌%◌, ◌^◌, ◌≤◌, ◌<◌, ◌≡◌, refl, sym, ap, ◌∙◌, true, false, List, [], ◌∷◌,
  ◌++◌, leb, if◌then◌else◌, length, set, arith, append-nil, append_assoc,
}
use libdfu.Base.Word.{IsSize, add32}
use libdfu.BinaryFile.{WriteChunk, BinaryFile, max_chunks, bf_wc_count, bf_wc_space}
use libdfu.Circular.Laws.{count_lem, count-add-space}
use libdfu.Circular.Window.{window, mod-wrap, window-snoc, window-set_snoc}
use libdfu.WriteChunks.{blank, chunk_at}

pub max_chunks-IsSize : IsSize max_chunks
max_chunks-IsSize = record { exponent = 5; small = omega arith; power = refl }

-- The queued chunks, next to be written first.
abbrev pub queue : BinaryFile → List WriteChunk
queue bf = window blank max_chunks bf.write_chunks bf.write_chunks_tail (bf_wc_count bf)

-- The slot `k` places behind the tail.
abbrev pub slot : BinaryFile → ℕ → ℕ
slot bf k = (bf.write_chunks_tail + k) % max_chunks

-- `n` consecutive places of a buffer of `size` bytes with the addresses they go to.
abbrev pub span : ℕ → ℕ → ℕ → ℕ → List (ℕ × ℕ)
span size at addr zero = []
span size at addr (suc n) = (at, addr) ∷ span size ((at + 1) % size) (add32 addr 1) n

abbrev pub chunk_bytes : ℕ → WriteChunk → List (ℕ × ℕ)
chunk_bytes size wc = span size wc.start wc.addr wc.len

abbrev pub all_bytes : ℕ → List WriteChunk → List (ℕ × ℕ)
all_bytes size [] = []
all_bytes size (wc ∷ wcs) = chunk_bytes size wc ++ all_bytes size wcs

-- All that the queue asks the target to write, in order.
abbrev pub scheduled : BinaryFile → List (ℕ × ℕ)
scheduled bf = all_bytes bf.decoded_size (queue bf)

pub span-add :
    (size at addr n m : ℕ)
    → at < size
    → addr < 2 ^ 32
    → span size at addr (n + m)
      ≡ span size at addr n ++ span size ((at + n) % size) (add32 addr n) m
span-add size at addr zero m h k =
    let same : (at + 0) % size ≡ at = rw add-zero (mod-eq_of_lt h) in
    let here : add32 addr 0 ≡ addr = omega arith in
    let none_left : 0 + m ≡ m = omega arith in rw (same, here, none_left)
span-add size at addr (suc n) m h k =
    let step : suc n + m ≡ suc (n + m) = omega arith in
    let place : ((at + 1) % size + n) % size ≡ (at + suc n) % size =
      mod-add-mod (at + 1) size n ∙ ap (λ t. t % size) (omega arith) in
    let target : add32 (add32 addr 1) n ≡ add32 addr (suc n) = omega arith in
    ap (span size at addr) step
    ∙ ap (λ t. (at, addr) ∷ t)
        (span-add size ((at + 1) % size) (add32 addr 1) n m (mod-lt (at + 1) (omega arith))
            (omega arith)
          ∙ rw (place, target))

pub all_bytes-snoc :
    (size : ℕ) (wcs : List WriteChunk) (wc : WriteChunk)
    → all_bytes size (wcs ++ (wc ∷ [])) ≡ all_bytes size wcs ++ chunk_bytes size wc
all_bytes-snoc size [] wc = append-nil _
all_bytes-snoc size (c ∷ wcs) wc =
    ap (λ t. chunk_bytes size c ++ t) (all_bytes-snoc size wcs wc)
    ∙ sym (append_assoc (chunk_bytes size c) (all_bytes size wcs) (chunk_bytes size wc))

-- The shape of the ring and of the decoded buffer's write end. A slot that is not queued is never
-- pending, and a pending last chunk ends where the next byte to schedule lies, with room to grow.
pub record IsQueueing (bf : BinaryFile) : Type 0 where
  pub slots : max_chunks ≤ length bf.write_chunks
  pub head_in : bf.write_chunks_head < max_chunks
  pub tail_in : bf.write_chunks_tail < max_chunks
  pub size : IsSize bf.decoded_size
  pub write_in : bf.write_tail < bf.decoded_size
  pub page : 0 < bf.write_chunk_size
  pub quiet :
      (k : ℕ) → bf_wc_count bf ≤ k → k < max_chunks → (chunk_at bf (slot bf k)).pending ≡ false
  pub last_ends :
      (n : ℕ)
      → bf_wc_count bf ≡ suc n
      → (chunk_at bf (slot bf n)).pending ≡ true
      → ((chunk_at bf (slot bf n)).start + (chunk_at bf (slot bf n)).len) % bf.decoded_size
        ≡ bf.write_tail
  pub last_short :
      (n : ℕ)
      → bf_wc_count bf ≡ suc n
      → (chunk_at bf (slot bf n)).pending ≡ true
      → (chunk_at bf (slot bf n)).len < bf.write_chunk_size
  pub addr_fits : (n : ℕ) → bf_wc_count bf ≡ suc n → (chunk_at bf (slot bf n)).addr < 2 ^ 32
  pub start_in :
      (n : ℕ) → bf_wc_count bf ≡ suc n → (chunk_at bf (slot bf n)).start < bf.decoded_size

pub bf_wc_count-eq :
    (bf : BinaryFile)
    → bf.write_chunks_head < max_chunks
    → bf.write_chunks_tail < max_chunks
    → bf_wc_count bf ≡ (
        if leb bf.write_chunks_tail bf.write_chunks_head
        then bf.write_chunks_head - bf.write_chunks_tail
        else bf.write_chunks_head + 32 - bf.write_chunks_tail)
unfolding bf_wc_count
bf_wc_count-eq bf h t = count_lem max_chunks-IsSize h t

module _ (bf : BinaryFile) (v : IsQueueing bf) where
  pub wc_count_is : bf_wc_count bf ≡ (
      if leb bf.write_chunks_tail bf.write_chunks_head
      then bf.write_chunks_head - bf.write_chunks_tail
      else bf.write_chunks_head + 32 - bf.write_chunks_tail)
  wc_count_is = bf_wc_count-eq bf v.head_in v.tail_in

  pub wc_count-add-space : bf_wc_count bf + bf_wc_space bf + 1 ≡ max_chunks
  unfolding bf_wc_count bf_wc_space
  wc_count-add-space = count-add-space max_chunks-IsSize v.head_in v.tail_in

  -- The head is the slot behind the last queued one.
  pub head-slot : slot bf (bf_wc_count bf) ≡ bf.write_chunks_head
  head-slot = ground (
    arith,
    v.head_in,
    v.tail_in,
    wc_count_is,
    mod-wrap (bf.write_chunks_tail + bf_wc_count bf) 32,
  )

  -- Filling the slot behind the first `n` queued chunks.
  pub window-fill :
      (n : ℕ) (wc : WriteChunk)
      → n < max_chunks
      → window blank max_chunks (set bf.write_chunks (slot bf n) wc) bf.write_chunks_tail (suc n)
        ≡ window blank max_chunks bf.write_chunks bf.write_chunks_tail n ++ (wc ∷ [])
  window-fill n wc h =
      window-set_snoc blank max_chunks bf.write_chunks bf.write_chunks_tail n wc v.slots v.tail_in h

  -- Without its last chunk the queue schedules all but that chunk's bytes.
  pub scheduled-last :
      (n : ℕ)
      → bf_wc_count bf ≡ suc n
      → scheduled bf
        ≡ all_bytes bf.decoded_size (window blank max_chunks bf.write_chunks bf.write_chunks_tail n)
          ++ chunk_bytes bf.decoded_size (chunk_at bf (slot bf n))
  scheduled-last n e =
      ap
        (λ c.
          all_bytes bf.decoded_size
            (window blank max_chunks bf.write_chunks bf.write_chunks_tail c))
        e
      ∙ ap (all_bytes bf.decoded_size)
          (window-snoc blank max_chunks bf.write_chunks bf.write_chunks_tail n v.tail_in)
      ∙ all_bytes-snoc bf.decoded_size
          (window blank max_chunks bf.write_chunks bf.write_chunks_tail n) (chunk_at bf (slot bf n))

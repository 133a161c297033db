-- ===== src/Append/Refine.antt =====
-- A receive buffer behaves as a queue of at most 2047 bytes that takes a block whole or not at all.
use libdfu.Base.{
  ℕ, ◌+◌, ◌-◌, ◌≤◌, ◌<◌, ◌≡◌, refl, ap, true, false, List, ◌++◌, ◌==◌, ltb, leb, if◌then◌else◌,
  ◌==◌, false, true, ◌||◌, le→leb, lt→leb, leb→le, ltb→lt, length, [], ◌∷◌, append-nil, Bool-cases,
  inl, inr, take, drop, arith,
}
use libdfu.Base.Word.{add32}
use libdfu.BinaryFile.{BinaryFile, buf_size, bf_count, bf_space}
use libdfu.Circular.Window.{length-window}
use libdfu.Append.{append_data, copy_in, appended}
use libdfu.Append.Copy.{
  IsReceiving, received, bf_count-add-space, copy_in-IsReceiving, received-copy_in, append-one,
  append-two, two-IsReceiving, received-two,
}

-- A queue that holds `cap` bytes at most and takes a block whole or not at all.
unfoldable pub push_block : ℕ → List ℕ → List ℕ → ℕ × List ℕ
push_block cap q src = if leb (length q + length src) cap then (length src, q ++ src) else (0, q)

-- What a client sees of `_bf_append_data`.
pub record Appends (bf : BinaryFile) (src : List ℕ) (n : ℕ) (bf' : BinaryFile) : Type 0 where
  pub queue : ◌≡◌ {A = ℕ × List ℕ} (n, received bf') (push_block 2047 (received bf) src)
  pub valid : IsReceiving bf'
  pub total :
      bf'.tot_appended ≡ (if length src == 0 then bf.tot_appended else add32 bf.tot_appended n)
  pub written : bf'.written ≡ (length src == 0 || bf.written)

module _ (bf : BinaryFile) where
  length-received : length (received bf) ≡ bf_count bf
  length-received = length-window 0 buf_size bf.buf bf.tail (bf_count bf)

  append-none : IsReceiving bf → Appends bf [] (append_data bf []).0 (append_data bf []).1
  unfolding append_data push_block bf_count
  append-none v =
      let small : length (received bf) + 0 ≤ 2047 =
        omega (arith, length-received, bf_count-add-space bf v) in
      record {
        queue = rw (append-nil, le→leb _ _ small);
        valid = record {
          whole = v.whole;
          storage = v.storage;
          head_in = v.head_in;
          tail_in = v.tail_in;
        };
        total = refl;
        written = refl;
      }

  module _ (src : List ℕ) (v : IsReceiving bf) (more : 0 < length src) where
    append-full :
        ltb (bf_space bf) (length src) ≡ true
        → Appends bf src (append_data bf src).0 (append_data bf src).1
    unfolding append_data push_block bf_count
    append-full full =
        let some_bytes : (length src == 0) ≡ false = ground arith in
        let over : leb (length (received bf) + length src) 2047 ≡ false =
          lt→leb _ _ (omega (arith, length-received, bf_count-add-space bf v, ltb→lt _ _ full)) in
        record {
          queue = rw (some_bytes, full, over);
          valid =
              rw (some_bytes, full)
                (record {
                  whole = v.whole;
                  storage = v.storage;
                  head_in = v.head_in;
                  tail_in = v.tail_in;
                });
          total = rw (some_bytes, full);
          written = rw (some_bytes, full);
        }

    -- A buffer that holds the block behind what was there, with the total still to be updated.
    append-filled :
        (filled : BinaryFile)
        → length src ≤ bf_space bf
        → IsReceiving filled
        → received filled ≡ received bf ++ src
        → filled.written ≡ bf.written
        → filled.tot_appended ≡ bf.tot_appended
        → append_data bf src ≡ (length src, appended filled (length src))
        → Appends bf src (append_data bf src).0 (append_data bf src).1
    unfolding push_block bf_count
    append-filled filled fits w r same_flag same_total e =
        let some_bytes : (length src == 0) ≡ false = ground arith in
        let under : leb (length (received bf) + length src) 2047 ≡ true =
          le→leb _ _ (omega (arith, length-received, bf_count-add-space bf v)) in
        rw e (record {
          queue = rw under (ap (λ q. (length src, q)) r);
          valid = record {
            whole = w.whole;
            storage = w.storage;
            head_in = w.head_in;
            tail_in = w.tail_in;
          };
          total = rw (some_bytes, same_total);
          written = rw (some_bytes, same_flag);
        })

    append-fits :
        length src ≤ bf_space bf → Appends bf src (append_data bf src).0 (append_data bf src).1
    append-fits fits = elim (Bool-cases (leb (bf.head + length src) 2048)) [
      | inl flat ↦
          let le : bf.head + length src ≤ 2048 = leb→le _ _ flat in
          append-filled (copy_in bf src) fits (copy_in-IsReceiving bf v src fits le)
            (received-copy_in bf v src fits le) refl refl (append-one bf v src fits more le)
      | inr cut ↦
          let gt : 2048 < bf.head + length src = ground arith in
          append-filled
            (copy_in (copy_in bf (take (2048 - bf.head) src)) (drop (2048 - bf.head) src)) fits
            (two-IsReceiving bf v src fits gt) (received-two bf v src fits gt) refl refl
            (append-two bf v src fits gt)
    ]

-- On a well-formed receive buffer `_bf_append_data` behaves as the queue: it takes the block whole and returns its length if it
-- fits beside what is there, else it takes nothing and returns 0. It keeps the receive buffer well
-- formed, adds what it took to the total, and an empty block marks the file as written.
pub append_refines :
    (bf : BinaryFile) (src : List ℕ)
    → IsReceiving bf
    → Appends bf src (append_data bf src).0 (append_data bf src).1
append_refines bf [] v = append-none bf v
append_refines bf (x ∷ xs) v = elim (Bool-cases (ltb (bf_space bf) (length (x ∷ xs)))) [
  | inl full ↦ append-full bf (x ∷ xs) v (omega arith) full
  | inr room ↦ append-fits bf (x ∷ xs) v (omega arith) (ground arith)
]

-- ===== src/EspFlash/Read/Slow.antt =====
-- The read through the temporary buffer, and `_flash_read` itself.
use libdfu.Base.{
  ℕ, zero, suc, ◌+◌, ◌-◌, ◌%◌, ◌^◌, ◌≤◌, ◌<◌, ◌≡◌, ◌≢◌, refl, sym, ap, ◌∙◌, Option, none, some,
  ◌==◌, ◌&&◌, ltb, min, false, Bool, Bool-cases, inl, inr, arith,
}
use libdfu.Base.Word.{add32, sub32}
use libdfu.EspFlash.{
  Bytes, Ram, SpiFlash, copy, from, tmpbuf_size, align_prev, align_next, slow_got, slow_flash_read,
  slow_next, slow_loop, flash_read,
}
use libdfu.EspFlash.Read.{
  Got, Holds, Filled, copy-zero, copy-within, copy-base, copy-next, copy-same,
}
use libdfu.EspFlash.Read.Aligned.{
  Part, aligned_flash_read-Filled, equally_unaligned_flash_read-Filled,
}

-- Some of the bytes have been read.
abbrev Advanced : Bytes → ℕ → ℕ → ℕ → Ram → Option ℕ × Ram → Type 0
Advanced content src dst sz m (none, m') = ⊥
Advanced content src dst sz m (some n, m') =
    (0 < n) × (n ≤ sz) × Part content src dst n m.bytes m'.bytes

-- The loop ends with all of them.
abbrev pub Ended : Bytes → ℕ → ℕ → ℕ → Ram → Option (Bool × Ram) → Type 0
Ended content src dst sz m none = ⊥
Ended content src dst sz m (some r) = Filled content src dst sz m r

slow_got-Advanced :
    (content : Bytes) (src dst sz a off n : ℕ) (m : Ram) (o : Option Bytes)
    → 0 < sz
    → off < 4
    → a + off ≡ src
    → off + min sz (tmpbuf_size - off) ≤ n
    → Got content a n o
    → Advanced content src dst sz m (slow_got off dst sz n m o)
unfolding slow_got
slow_got-Advanced content src dst sz a off n m none some_bytes less start enough got = absurd got
slow_got-Advanced content src dst sz a off n m (some b) some_bytes less start enough got =
    let count = min sz (tmpbuf_size - off) in
    (
      omega arith,
      omega arith,
      λ p.
          copy-same m.bytes (from (copy m.tmpbuf 0 b n) off) (from content src) dst count p (λ i lt.
            let index : a + (off + i - 0) ≡ src + i = omega arith in
            copy-within m.tmpbuf b 0 n (off + i) (omega arith) (omega arith)
            ∙ got (off + i - 0) (omega arith)
            ∙ ap content index),
    )

module _ {S : Type 0} (flash : SpiFlash S) (s : S) (content : Bytes) (size : ℕ)
    (holds : Holds flash s content size) (whole : size % 4 ≡ 0) (small : size < 2 ^ 32) where
  slow_flash_read-Advanced :
      (src dst sz : ℕ) (m : Ram)
      → 0 < sz
      → src + sz ≤ size
      → (src + sz) % 4 ≢ 1
      → Advanced content src dst sz m (slow_flash_read flash s src dst sz m)
  unfolding slow_flash_read
  slow_flash_read-Advanced src dst sz m some_bytes fits last =
      let end = sub32 (align_next (sub32 (add32 src sz) 1)) 1 in
      let n = min tmpbuf_size (add32 (sub32 end (align_prev src)) 1) in
      let e1 : sub32 src (align_prev src) ≡ src % 4 = omega arith in
      let e2 : align_next (sub32 (add32 src sz) 1) ≡ align_prev (src + sz + 2) = omega arith in
      let e3 : add32 (sub32 (sub32 (align_prev (src + sz + 2)) 1) (align_prev src)) 1
          ≡ align_prev (src + sz + 2) - align_prev src =
        omega arith in
      rw (e1, e2, e3)
        (slow_got-Advanced content src dst sz (align_prev src) (src % 4)
          (min tmpbuf_size (align_prev (src + sz + 2) - align_prev src)) m
          (flash.read s (align_prev src)
            (min tmpbuf_size (align_prev (src + sz + 2) - align_prev src)))
          some_bytes (omega arith) (omega arith) (omega arith)
          (holds (align_prev src) (min tmpbuf_size (align_prev (src + sz + 2) - align_prev src))
            (omega arith) (omega arith) (omega arith)))

  module _ (src dst sz : ℕ) (m : Ram) (fits : src + sz ≤ size) (last : (src + sz) % 4 ≢ 1) where
    next-Ended :
        (k done : ℕ) (m' : Ram) (r : Option ℕ × Ram)
        → done < sz
        → sz ≤ done + suc k
        → Part content src dst done m.bytes m'.bytes
        → Advanced content (src + done) (dst + done) (sz - done) m' r
        → ((done' : ℕ) (m'' : Ram)
            → done' ≤ sz
            → sz ≤ done' + k
            → Part content src dst done' m.bytes m''.bytes
            → Ended content src dst sz m (slow_loop flash k s src dst sz done' m''))
        → Ended content src dst sz m (slow_next (slow_loop flash k s src dst sz) done r)
    unfolding slow_next
    next-Ended k done m' (none, m'') lt le part adv ih = absurd adv
    next-Ended k done m' (some n, m'') lt le part adv ih =
        ih (done + n) m'' (omega (arith, adv.1)) (omega (arith, adv.0)) (λ p.
          adv.2 p
          ∙ copy-base m'.bytes (copy m.bytes dst (from content src) done)
              (from content (src + done)) (dst + done) n p (part p)
          ∙ copy-next m.bytes (from content (src + done)) (from content src) dst done n p (λ i lt_i.
            let index : src + done + i ≡ src + (done + i) = omega arith in ap content index))

    slow_loop-Ended :
        (k done : ℕ) (m' : Ram)
        → done ≤ sz
        → sz ≤ done + k
        → Part content src dst done m.bytes m'.bytes
        → Ended content src dst sz m (slow_loop flash k s src dst sz done m')
    unfolding slow_loop
    slow_loop-Ended zero done m' le enough part =
        let test : ltb done sz ≡ false = ground arith in
        let same : done ≡ sz = omega arith in
        rw test (refl, λ p. part p ∙ ap (λ t. copy m.bytes dst (from content src) t p) same)
    slow_loop-Ended (suc k) done m' le enough part = elim (Bool-cases (ltb done sz)) [
      | inl more ↦
          let lt : done < sz = ground (arith, more) in
          let e1 : add32 src done ≡ src + done = omega arith in
          let e2 : sub32 sz done ≡ sz - done = omega arith in
          let sum : src + done + (sz - done) ≡ src + sz = omega arith in
          rw (more, e1, e2)
            (next-Ended k done m' (slow_flash_read flash s (src + done) (dst + done) (sz - done) m')
              lt enough part
              (slow_flash_read-Advanced (src + done) (dst + done) (sz - done) m' (omega arith)
                (omega arith) (rw sum last))
              (λ done' m'' h1 h2 h3. slow_loop-Ended k done' m'' h1 h2 h3))
      | inr end ↦
          let same : done ≡ sz = ground (arith, end) in
          rw end (refl, λ p. part p ∙ ap (λ t. copy m.bytes dst (from content src) t p) same)
    ]

  -- On a flash that reads whole double words below its size, `_flash_read` ends, succeeds, copies
  -- exactly the bytes from `src` on to `dst` and changes no other memory, where the
  -- read lies in the flash and has three bytes at least, and, if source and destination are off by
  -- different numbers of bytes, does not end with the first byte of a double word.
  pub flash_read-Ended :
      (src dst sz : ℕ) (m : Ram)
      → 3 ≤ sz
      → src + sz ≤ size
      → dst + 4 ≤ 2 ^ 32
      → (src % 4 ≢ dst % 4 → (src + sz) % 4 ≢ 1)
      → Ended content src dst sz m (flash_read flash s src dst sz m)
  unfolding flash_read
  flash_read-Ended src dst sz m some_bytes fits room ends =
      let src_delta = sub32 (align_next src) src in
      let dst_delta = sub32 (align_next dst) dst in
      elim (Bool-cases (dst_delta == 0 && (src_delta == 0))) [
        | inl aligned ↦
            let al : src % 4 ≡ 0 = ground (arith, aligned) in
            rw aligned (
              aligned_flash_read-Filled flash s content size holds whole small src dst sz m al fits)
        | inr not_both ↦ elim (Bool-cases (dst_delta == src_delta)) [
          | inl equal ↦
              let same : src % 4 ≡ dst % 4 = ground (arith, equal) in
              let off : src % 4 ≢ 0 = ground (arith, not_both, equal) in
              rw (not_both, equal)
                (equally_unaligned_flash_read-Filled flash s content size holds whole small src dst
                  sz m off same some_bytes fits room)
          | inr differ ↦
              let other : src % 4 ≢ dst % 4 = ground (arith, differ) in
              rw (not_both, differ)
                (slow_loop-Ended src dst sz m fits (ends other) sz 0 m (omega arith) (omega arith)
                  (λ p. sym (copy-zero m.bytes (from content src) dst p)))
        ]
      ]

-- ===== src/EspFlash/Read/Aligned.antt =====
-- The fast reads: source and destination are both aligned, or off by the same number of bytes.
use libdfu.Base.{
  ℕ, ◌+◌, ◌-◌, ◌%◌, ◌^◌, ◌≤◌, ◌<◌, ◌≡◌, ◌≢◌, refl, ap, ◌∙◌, Option, none, some, ◌==◌, Bool-cases,
  inl, inr, arith,
}
use libdfu.Base.Word.{add32, sub32}
use libdfu.EspFlash.{
  Bytes, Ram, SpiFlash, copy, from, align_prev, align_next, read_last, aligned_got,
  aligned_flash_read, first_got, middle_got, equally_unaligned_flash_read,
}
use libdfu.EspFlash.Read.{Got, Holds, Filled, copy-same, copy-base, copy-next, copy-prior}

-- The first `n` of the `sz` bytes are there.
abbrev pub Part : Bytes → ℕ → ℕ → ℕ → Bytes → Bytes → Type 0
Part content src dst n mem mem' = (p : ℕ) → mem' p ≡ copy mem dst (from content src) n p

read_last-Filled :
    (content : Bytes) (src dst n k a sz : ℕ) (m m' : Ram) (o : Option Bytes)
    → n + k ≡ sz
    → k ≤ 4
    → a ≡ src + n
    → Part content src dst n m.bytes m'.bytes
    → Got content a 4 o
    → Filled content src dst sz m (read_last (dst + n) k m' o)
unfolding read_last
read_last-Filled content src dst n k a sz m m' none sum few place part got = absurd got
read_last-Filled content src dst n k a sz m m' (some v) sum few place part got = (refl, filled)
  where
    same : (i : ℕ) → i < k → v i ≡ content (src + (n + i))
    same i lt =
        let index : a + i ≡ src + (n + i) = omega arith in got i (omega arith) ∙ ap content index

    filled : (p : ℕ) → copy m'.bytes (dst + n) v k p ≡ copy m.bytes dst (from content src) sz p
    filled p =
        copy-base m'.bytes (copy m.bytes dst (from content src) n) v (dst + n) k p (part p)
        ∙ copy-next m.bytes v (from content src) dst n k p same
        ∙ ap (λ t. copy m.bytes dst (from content src) t p) sum

module _ {S : Type 0} (flash : SpiFlash S) (s : S) (content : Bytes) (size : ℕ)
    (holds : Holds flash s content size) (whole : size % 4 ≡ 0) (small : size < 2 ^ 32) where
  aligned_got-Filled :
      (src dst sz : ℕ) (m : Ram) (o : Option Bytes)
      → src % 4 ≡ 0
      → src + sz ≤ size
      → Got content src (align_prev sz) o
      → Filled content src dst sz m (aligned_got flash s src dst sz m o)
  unfolding aligned_got
  aligned_got-Filled src dst sz m none al fits got = absurd got
  aligned_got-Filled src dst sz m (some b) al fits got =
      let part : Part content src dst (align_prev sz) m.bytes (copy m.bytes dst b (align_prev sz)) =
        λ p. copy-same m.bytes b (from content src) dst (align_prev sz) p got in
      elim (Bool-cases (align_prev sz == sz)) [
        | inl all ↦
            let same : align_prev sz ≡ sz = ground (arith, all) in
            rw all (refl, λ p. part p ∙ ap (λ t. copy m.bytes dst (from content src) t p) same)
        | inr more ↦
            let rest : align_prev sz + (sz - align_prev sz) ≡ sz = omega arith in
            let off : sz % 4 ≢ 0 = ground (arith, more) in
            let next : add32 src (align_prev sz) ≡ src + align_prev sz = omega arith in
            rw more (
              read_last-Filled content src dst (align_prev sz) (sz - align_prev sz)
                (add32 src (align_prev sz)) sz m
                (record m { bytes = copy m.bytes dst b (align_prev sz) })
                (flash.read s (add32 src (align_prev sz)) 4) rest (omega arith) next part
                (holds (add32 src (align_prev sz)) 4 (omega arith) refl (omega arith)))
      ]

  pub aligned_flash_read-Filled :
      (src dst sz : ℕ) (m : Ram)
      → src % 4 ≡ 0
      → src + sz ≤ size
      → Filled content src dst sz m (aligned_flash_read flash s src dst sz m)
  unfolding aligned_flash_read
  aligned_flash_read-Filled src dst sz m al fits =
      aligned_got-Filled src dst sz m (flash.read s src (align_prev sz)) al fits
        (holds src (align_prev sz) al (omega arith) (omega arith))

  -- Once the middle is there, with `d` bytes before it, `n` bytes in it and `e` bytes behind it.
  first_got-Filled :
      (src dst d n e sz : ℕ) (m : Ram) (b : Bytes) (o : Option Bytes)
      → (src + d) % 4 ≡ 0
      → d < 4
      → n % 4 ≡ 0
      → e < 4
      → d + n + e ≡ sz
      → src + sz ≤ size
      → Got content (src + d) n (some b)
      → Got content (src + d - 4) 4 o
      → 4 ≤ src + d
      → Filled content src dst sz m (
          first_got flash s dst
            (dst + d)
            (src + d)
            n
            d
            e
            (record m { bytes = copy m.bytes (dst + d) b n })
            o)
  unfolding first_got
  first_got-Filled src dst d n e sz m b none al few al_n less sum fits mid got room = absurd got
  first_got-Filled src dst d n e sz m b (some v) al few al_n less sum fits mid got room =
      elim (Bool-cases (e == 0)) [
        | inl end ↦
            let same : d + n ≡ sz = ground (arith, end) in
            rw end (refl, λ p. part p ∙ ap (λ t. copy m.bytes dst (from content src) t p) same)
        | inr more ↦
            let some_left : e ≢ 0 = ground (arith, more) in
            let next : add32 (src + d) n ≡ src + (d + n) = omega arith in
            let place : dst + d + n ≡ dst + (d + n) = omega arith in
            rw (more, place)
              (read_last-Filled content src dst (d + n) e (add32 (src + d) n) sz m
                (record m { bytes = copy (copy m.bytes (dst + d) b n) dst (from v (4 - d)) d })
                (flash.read s (add32 (src + d) n) 4) sum (omega arith) next part
                (holds (add32 (src + d) n) 4 (omega arith) refl (omega arith)))
      ]
    where
      first : (i : ℕ) → i < d → v (4 - d + i) ≡ content (src + i)
      first i lt =
          let index : src + d - 4 + (4 - d + i) ≡ src + i = omega arith in
          got (4 - d + i) (omega arith) ∙ ap content index

      later : (i : ℕ) → i < n → b i ≡ content (src + (d + i))
      later i lt =
          let index : src + d + i ≡ src + (d + i) = omega arith in mid i lt ∙ ap content index

      part :
          Part content src dst
            (d + n)
            m.bytes
            (copy (copy m.bytes (dst + d) b n) dst (from v (4 - d)) d)
      part p = copy-prior m.bytes b (from v (4 - d)) (from content src) dst n d p later first

  middle_got-Filled :
      (src dst d n e sz : ℕ) (m : Ram) (o : Option Bytes)
      → (src + d) % 4 ≡ 0
      → d < 4
      → n % 4 ≡ 0
      → e < 4
      → d + n + e ≡ sz
      → src + sz ≤ size
      → 4 ≤ src + d
      → Got content (src + d) n o
      → Filled content src dst sz m (middle_got flash s dst (dst + d) (src + d) n d e m o)
  unfolding middle_got
  middle_got-Filled src dst d n e sz m none al few al_n less sum fits room got = absurd got
  middle_got-Filled src dst d n e sz m (some b) al few al_n less sum fits room got =
      let prior : sub32 (src + d) 4 ≡ src + d - 4 = omega arith in
      rw prior (
        first_got-Filled src dst d n e sz m b (flash.read s (src + d - 4) 4) al few al_n less sum
          fits got (holds (src + d - 4) 4 (omega arith) refl (omega arith)) room)

  pub equally_unaligned_flash_read-Filled :
      (src dst sz : ℕ) (m : Ram)
      → src % 4 ≢ 0
      → src % 4 ≡ dst % 4
      → 3 ≤ sz
      → src + sz ≤ size
      → dst + 4 ≤ 2 ^ 32
      → Filled content src dst sz m (equally_unaligned_flash_read flash s src dst sz m)
  unfolding equally_unaligned_flash_read
  equally_unaligned_flash_read-Filled src dst sz m off same some_bytes fits room =
      let d = 4 - src % 4 in
      let n = align_prev (sz - d) in
      let e = sz - d - n in
      let e1 : align_next src ≡ src + d = omega arith in
      let e2 : align_next dst ≡ dst + d = omega arith in
      let e3 : sub32 (src + d) src ≡ d = omega arith in
      let e4 : sub32 sz d ≡ sz - d = omega arith in
      let e5 : sub32 (sub32 (add32 src sz) 1) (sub32 (add32 (src + d) n) 1) ≡ e = omega arith in
      rw (e1, e2, e3, e4, e5)
        (middle_got-Filled src dst d n e sz m (flash.read s (src + d) n) (omega arith) (omega arith)
          (omega arith) (omega arith) (omega arith) fits (omega arith)
          (holds (src + d) n (omega arith) (omega arith) (omega arith)))

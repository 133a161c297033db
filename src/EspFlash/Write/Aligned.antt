-- ===== src/EspFlash/Write/Aligned.antt =====
-- What a write to the flash leaves there, where each byte depends on what was there and on what was
-- written: a read, changed and written double word, and the write where both sides are aligned.
use libdfu.Base.{
  ℕ, ◌+◌, ◌-◌, ◌%◌, ◌^◌, ◌≤◌, ◌<◌, ◌≡◌, ◌≢◌, refl, sym, ap, ap₂, ◌∙◌, Bool, true, Option, none,
  some, ◌==◌, Bool-cases, inl, inr, arith,
}
use libdfu.Base.Word.{add32}
use libdfu.EspFlash.{Bytes, SpiFlash, copy, from, align_prev}
use libdfu.EspFlash.Write.{write_back, replace, aligned_flash_write}
use libdfu.EspFlash.Read.{
  Got, Holds, before, within, after, place_of, copy-within, copy-before, copy-after, copy-base,
  copy-next,
}

-- `n` bytes were merged into what was there from `dst` on.
abbrev pub merged : (ℕ → ℕ → ℕ) → Bytes → ℕ → Bytes → ℕ → Bytes
merged merge old dst bytes n = copy old dst (λ i. merge (old (dst + i)) (bytes i)) n

-- A flash whose state holds `content`, which reads double words and merges them in when it writes them;
-- to write what is there changes nothing.
pub record IsFlash {S : Type 0} (flash : SpiFlash S) (content : S → Bytes) (merge : ℕ → ℕ → ℕ)
    (size : ℕ) : Type 0 where
  pub reads : (s : S) → Holds flash s (content s) size
  pub writes :
      (s : S) (dst n : ℕ) (bytes : Bytes)
      → dst % 4 ≡ 0
      → n % 4 ≡ 0
      → dst + n ≤ size
      → ((flash.write s dst bytes n).0 ≡ true)
        × ((p : ℕ)
            → content (flash.write s dst bytes n).1 p ≡ merged merge (content s) dst bytes n p)
  pub same : (x : ℕ) → merge x x ≡ x
  pub whole : size % 4 ≡ 0
  pub small : size < 2 ^ 32

module _ {S : Type 0} {flash : SpiFlash S} {content : S → Bytes} {merge : ℕ → ℕ → ℕ} {size : ℕ}
    (ok : IsFlash flash content merge size) where
  -- The bytes were merged in, and no other changed.
  abbrev pub Merged : S → ℕ → Bytes → ℕ → Bool × S → Type 0
  Merged s dst bytes n (done, s') =
      (done ≡ true) × ((p : ℕ) → content s' p ≡ merged merge (content s) dst bytes n p)

  pub merged-within :
      (old bytes : Bytes) (dst n p : ℕ)
      → dst ≤ p
      → p < dst + n
      → merged merge old dst bytes n p ≡ merge (old p) (bytes (p - dst))
  merged-within old bytes dst n p le lt =
      let back : dst + (p - dst) ≡ p = omega arith in
      copy-within old (λ i. merge (old (dst + i)) (bytes i)) dst n p le lt
      ∙ ap (λ q. merge (old q) (bytes (p - dst))) back

  pub merged-before :
      (old bytes : Bytes) (dst n p : ℕ) → p < dst → merged merge old dst bytes n p ≡ old p
  merged-before old bytes dst n p lt =
      copy-before old (λ i. merge (old (dst + i)) (bytes i)) dst n p lt

  pub merged-after :
      (old bytes : Bytes) (dst n p : ℕ) → dst + n ≤ p → merged merge old dst bytes n p ≡ old p
  merged-after old bytes dst n p le =
      copy-after old (λ i. merge (old (dst + i)) (bytes i)) dst n p le

  -- A double word with `k` new bytes from place `lo` on, at one address.
  word_merged :
      (old v bytes : Bytes) (a lo k p : ℕ)
      → lo + k ≤ 4
      → ((i : ℕ) → i < 4 → v i ≡ old (a + i))
      → merged merge old a (copy v lo bytes k) 4 p ≡ merged merge old (a + lo) bytes k p
  word_merged old v bytes a lo k p fits got = elim (place_of p (a + lo) k) [
    | within le lt ↦
        let index : p - a - lo ≡ p - (a + lo) = omega arith in
        merged-within old (copy v lo bytes k) a 4 p (omega arith) (omega arith)
        ∙ ap (merge (old p))
            (copy-within v bytes lo k (p - a) (omega arith) (omega arith) ∙ ap bytes index)
        ∙ sym (merged-within old bytes (a + lo) k p le lt)
    | before lt ↦
        kept (merged-before old bytes (a + lo) k p lt)
          (λ h. copy-before v bytes lo k (p - a) (omega arith))
    | after le ↦
        kept (merged-after old bytes (a + lo) k p le)
          (λ h. copy-after v bytes lo k (p - a) (omega arith))
  ]
    where
      kept :
          merged merge old (a + lo) bytes k p ≡ old p
          → (a ≤ p → copy v lo bytes k (p - a) ≡ v (p - a))
          → merged merge old a (copy v lo bytes k) 4 p ≡ merged merge old (a + lo) bytes k p
      kept out unchanged = elim (place_of p a 4) [
        | before lt ↦ merged-before old (copy v lo bytes k) a 4 p lt ∙ sym out
        | after le ↦ merged-after old (copy v lo bytes k) a 4 p le ∙ sym out
        | within le lt ↦
            let back : a + (p - a) ≡ p = omega arith in
            merged-within old (copy v lo bytes k) a 4 p le lt
            ∙ ap (merge (old p)) (unchanged le ∙ got (p - a) (omega arith) ∙ ap old back)
            ∙ ok.same (old p)
            ∙ sym out
      ]

  pub replace-Merged :
      (s : S) (a lo k : ℕ) (bytes : Bytes)
      → a % 4 ≡ 0
      → a + 4 ≤ size
      → lo + k ≤ 4
      → Merged s (a + lo) bytes k (replace flash s a (λ v. copy v lo bytes k))
  unfolding replace
  replace-Merged s a lo k bytes al fits room =
      write_back-Merged (flash.read s a 4) (ok.reads s a 4 al refl fits)
    where
      write_back-Merged :
          (o : Option Bytes)
          → Got (content s) a 4 o
          → Merged s (a + lo) bytes k (write_back flash s a (λ v. copy v lo bytes k) o)
      write_back-Merged none got = absurd got
      write_back-Merged (some v) got =
          let w = ok.writes s a 4 (copy v lo bytes k) al refl fits in
          (w.0, λ p. w.1 p ∙ word_merged (content s) v bytes a lo k p room got)

  -- Bytes behind others that were merged in before.
  pub merged-next :
      (old mid f b : Bytes) (dst n k p : ℕ)
      → ((q : ℕ) → mid q ≡ merged merge old dst f n q)
      → ((i : ℕ) → i < k → b i ≡ f (n + i))
      → merged merge mid (dst + n) b k p ≡ merged merge old dst f (n + k) p
  merged-next old mid f b dst n k p first same =
      copy-base mid (merged merge old dst f n) (λ i. merge (mid (dst + n + i)) (b i)) (dst + n) k p
        (first p)
      ∙ copy-next old (λ i. merge (mid (dst + n + i)) (b i)) (λ i. merge (old (dst + i)) (f i)) dst
          n k p
          (λ i lt.
            let index : dst + n + i ≡ dst + (n + i) = omega arith in
            ap₂ (λ x y. merge x y)
              (first (dst + n + i)
                ∙ merged-after old f dst n (dst + n + i) (omega arith)
                ∙ ap old index)
              (same i lt))

  -- Where source and destination are aligned, `_aligned_flash_write` succeeds, merges exactly the bytes
  -- from `src` on into the flash at `dst`, and leaves every other byte of the flash as it was.
  pub aligned_flash_write-Merged :
      (s : S) (dst src sz : ℕ) (mem : Bytes)
      → dst % 4 ≡ 0
      → dst + sz ≤ size
      → Merged s dst (from mem src) sz (aligned_flash_write flash s dst src sz mem)
  unfolding aligned_flash_write
  aligned_flash_write-Merged s dst src sz mem al fits =
      let n = align_prev sz in
      let w = ok.writes s dst n (from mem src) al (omega arith) (omega arith) in
      let s' = (flash.write s dst (from mem src) n).1 in
      elim (Bool-cases (n == sz)) [
        | inl all ↦
            let same : n ≡ sz = ground (arith, all) in
            rw (w.0, all)
              (refl, λ p. w.1 p ∙ ap (λ t. merged merge (content s) dst (from mem src) t p) same)
        | inr more ↦
            let off : sz % 4 ≢ 0 = ground (arith, more) in
            let next : add32 dst n ≡ dst + n + 0 = omega (arith, ok.small) in
            let plain : dst + n + 0 ≡ dst + n = omega arith in
            let sum : n + (sz - n) ≡ sz = omega arith in
            let r =
              replace-Merged s' (dst + n) 0 (sz - n) (from mem (src + n)) (omega arith)
                (omega (arith, ok.whole)) (omega arith) in
            rw (w.0, more, next, plain)
              (
                r.0,
                λ p.
                    r.1 p
                    ∙ ap (λ t. merged merge (content s') t (from mem (src + n)) (sz - n) p) plain
                    ∙ merged-next (content s) (content s') (from mem src) (from mem (src + n)) dst n
                        (sz - n) p w.1
                        (λ i lt.
                          let index : src + n + i ≡ src + (n + i) = omega arith in ap mem index)
                    ∙ ap (λ t. merged merge (content s) dst (from mem src) t p) sum,
              )
      ]

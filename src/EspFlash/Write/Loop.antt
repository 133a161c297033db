-- ===== src/EspFlash/Write/Loop.antt =====
-- The rounds of a write through the temporary buffer, and `_flash_write` itself.
use libdfu.Base.{
  ℕ, zero, suc, ◌+◌, ◌-◌, ◌%◌, ◌^◌, ◌≤◌, ◌<◌, ◌≡◌, ◌≢◌, refl, sym, ap, ◌∙◌, Bool, false, ◌&&◌,
  Option, none, some, ◌==◌, ltb, leb, min, Bool-cases, inl, inr, arith,
}
use libdfu.Base.Word.{add32, sub32}
use libdfu.EspFlash.{Bytes, SpiFlash, from, align_next, tmpbuf_size}
use libdfu.EspFlash.Write.{slow_flash_write, write_next, write_loop, flash_write}
use libdfu.EspFlash.Read.{copy-zero}
use libdfu.EspFlash.Write.Aligned.{IsFlash, Merged, merged, merged-next, aligned_flash_write-Merged}
use mathlib.Core.Path.{subst}
use libdfu.EspFlash.Write.Slow.{Advanced, slow_flash_write-Advanced}

module _ {S : Type 0} {flash : SpiFlash S} {content : S → Bytes} {merge : ℕ → ℕ → ℕ} {size : ℕ}
    (ok : IsFlash flash content merge size) where
  -- The write ends, and all of the bytes were merged in.
  abbrev pub Wrote : S → ℕ → Bytes → ℕ → Option (Bool × S) → Type 0
  Wrote s dst bytes sz none = ⊥
  Wrote s dst bytes sz (some r) = Merged ok s dst bytes sz r

  module _ (s0 : S) (dst src sz : ℕ) (mem : Bytes) (fits : dst + sz ≤ size) where
    next-Wrote :
        (k done n : ℕ) (s : S) (r : Option ℕ × S)
        → ((p : ℕ) → content s p ≡ merged merge (content s0) dst (from mem src) done p)
        → Advanced ok s (dst + done) (from mem (src + done)) n r
        → ((s' : S)
            → ((p : ℕ) → content s' p ≡ merged merge (content s0) dst (from mem src) (done + n) p)
            → Wrote s0 dst (from mem src) sz (write_loop flash k dst src sz (done + n) mem s'))
        → Wrote s0 dst
            (from mem src)
            sz
            (write_next flash (λ done' s'. write_loop flash k dst src sz done' mem s') done r)
    unfolding write_next
    next-Wrote k done n s (none, s') part adv ih = absurd adv
    next-Wrote k done n s (some n', s') part adv ih = rw (adv.0) (
        ih s' (λ p.
          adv.1 p
          ∙ merged-next ok (content s0) (content s) (from mem src) (from mem (src + done)) dst done
              n p part
              (λ i lt.
                let index : src + done + i ≡ src + (done + i) = omega arith in ap mem index)))

    -- What is left after `done` bytes is nothing, or whole buffers and four bytes at least.
    abbrev Fit : ℕ → Type 0
    Fit done = (sz - done) % 512 ≢ 0 → 4 ≤ (sz - done) % 512

    Fit-next : (done : ℕ) → done < sz → Fit done → Fit (done + min (sz - done) tmpbuf_size)
    Fit-next done lt fit ne = elim (Bool-cases (leb 512 (sz - done))) [
      | inl full ↦
          let le : 512 ≤ sz - done = ground (arith, full) in
          let same : (sz - (done + min (sz - done) tmpbuf_size)) % 512 ≡ (sz - done) % 512 =
            omega arith in
          omega (arith, same, fit (λ z. ne (same ∙ z)))
      | inr short ↦
          let lt_full : sz - done < 512 = ground (arith, short) in
          let nothing : (sz - (done + min (sz - done) tmpbuf_size)) % 512 ≡ 0 = omega arith in
          absurd (ne nothing)
    ]

    write_loop-Wrote :
        (k done : ℕ) (s : S)
        → done ≤ sz
        → sz ≤ done + k
        → Fit done
        → ((p : ℕ) → content s p ≡ merged merge (content s0) dst (from mem src) done p)
        → Wrote s0 dst (from mem src) sz (write_loop flash k dst src sz done mem s)
    unfolding write_loop
    write_loop-Wrote zero done s le enough fit part =
        let test : ltb done sz ≡ false = ground arith in
        let same : done ≡ sz = omega arith in
        rw test
          (refl, λ p. part p ∙ ap (λ t. merged merge (content s0) dst (from mem src) t p) same)
    write_loop-Wrote (suc k) done s le enough fit part = elim (Bool-cases (ltb done sz)) [
      | inl more ↦
          let lt : done < sz = ground (arith, more) in
          let rest : 4 ≤ sz - done = grind (arith, fit) in
          let e1 : add32 dst done ≡ dst + done = omega (arith, ok.small) in
          let e2 : sub32 sz done ≡ sz - done = omega (arith, ok.small) in
          let n = min (sz - done) tmpbuf_size in
          let fit' : Fit (done + n) = Fit-next done lt fit in
          rw (more, e1, e2)
            (next-Wrote k done n s
              (slow_flash_write flash s (dst + done) (src + done) (sz - done) mem) part
              (slow_flash_write-Advanced ok s (dst + done) (src + done) (sz - done) mem rest
                (omega arith))
              (λ s' part'. write_loop-Wrote k (done + n) s' (omega arith) (omega arith) fit' part'))
      | inr end ↦
          let same : done ≡ sz = ground (arith, end) in
          rw end
            (refl, λ p. part p ∙ ap (λ t. merged merge (content s0) dst (from mem src) t p) same)
    ]

  -- On a flash that merges double words into what it holds, `_flash_write` ends, succeeds, merges
  -- exactly the bytes from `src` on into the flash at `dst` and changes no other byte there: where
  -- source and destination are both aligned, or where they are off by different numbers of bytes and the
  -- size leaves nothing, or four bytes at least, behind whole temporary buffers.
  pub flash_write-Wrote :
      (s : S) (dst src sz : ℕ) (mem : Bytes)
      → dst + sz ≤ size
      → src + 4 ≤ 2 ^ 32
      → (dst % 4 ≡ src % 4 → dst % 4 ≡ 0)
      → (dst % 4 ≢ src % 4 → sz % 512 ≢ 0 → 4 ≤ sz % 512)
      → dst + 4 ≤ size
      → Wrote s dst (from mem src) sz (flash_write flash s dst src sz mem)
  unfolding flash_write
  flash_write-Wrote s dst src sz mem fits room equal fit below =
      let dst_delta = sub32 (align_next dst) dst in
      let src_delta = sub32 (align_next src) src in
      elim (Bool-cases (src_delta == 0 && (dst_delta == 0))) [
        | inl aligned ↦
            let al : dst % 4 ≡ 0 = ground (arith, aligned, ok.small) in
            rw aligned (aligned_flash_write-Merged ok s dst src sz mem al fits)
        | inr not_both ↦ elim (Bool-cases (src_delta == dst_delta)) [
          | inl same_delta ↦
              let same : dst % 4 ≡ src % 4 = ground (arith, same_delta, ok.small) in
              let al : dst % 4 ≡ 0 = equal same in
              absurd (ground (arith, not_both, same_delta, al, same, ok.small))
          | inr differ ↦
              let other : dst % 4 ≢ src % 4 = ground (arith, differ, ok.small) in
              let plain : sz ≡ sz - 0 = omega arith in
              rw (not_both, differ)
                (write_loop-Wrote s dst src sz mem fits sz 0 s (omega arith) (omega arith)
                  (subst (λ r. r % 512 ≢ 0 → 4 ≤ r % 512) plain (fit other))
                  (λ p. sym (
                    copy-zero (content s) (λ i. merge (content s (dst + i)) (mem (src + i))) dst
                      p)))
        ]
      ]

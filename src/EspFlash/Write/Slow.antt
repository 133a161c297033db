-- ===== src/EspFlash/Write/Slow.antt =====
-- One round of the write through the temporary buffer.
use libdfu.Base.{
  ℕ, ◌+◌, ◌-◌, ◌%◌, ◌≤◌, ◌<◌, ◌≡◌, ◌≢◌, refl, sym, ap, ap₂, ◌∙◌, Bool, true, false, not, ◌&&◌,
  Option, none, some, ◌==◌, ltb, leb, min, Bool-cases, inl, inr, if◌then◌else◌, arith,
}
use libdfu.Base.Word.{add32, sub32}
use libdfu.EspFlash.{Bytes, SpiFlash, copy, from, align_prev, align_next, tmpbuf_size}
use libdfu.EspFlash.Write.{replace, slow_parts, slow_flash_write}
use libdfu.EspFlash.Read.{copy-prior, copy-base, copy-zero}
use libdfu.EspFlash.Write.Aligned.{
  IsFlash, Merged, merged, merged-next, merged-before, replace-Merged,
}

module _ {S : Type 0} {flash : SpiFlash S} {content : S → Bytes} {merge : ℕ → ℕ → ℕ} {size : ℕ}
    (ok : IsFlash flash content merge size) where
  -- All of the `sz` bytes of one round were merged in.
  abbrev pub Advanced : S → ℕ → Bytes → ℕ → Option ℕ × S → Type 0
  Advanced s dst bytes sz (none, s') = ⊥
  Advanced s dst bytes sz (some n, s') =
      (n ≡ sz) × ((p : ℕ) → content s' p ≡ merged merge (content s) dst bytes sz p)

  -- Bytes before others that were merged in earlier.
  merged-prior :
      (old mid f a : Bytes) (dst n k p : ℕ)
      → ((q : ℕ) → mid q ≡ merged merge old (dst + k) a n q)
      → ((i : ℕ) → i < n → a i ≡ f (k + i))
      → merged merge mid dst f k p ≡ merged merge old dst f (k + n) p
  merged-prior old mid f a dst n k p later same =
      copy-base mid (merged merge old (dst + k) a n) (λ i. merge (mid (dst + i)) (f i)) dst k p
        (later p)
      ∙ copy-prior old (λ i. merge (old (dst + k + i)) (a i)) (λ i. merge (mid (dst + i)) (f i))
          (λ i. merge (old (dst + i)) (f i)) dst n k p
          (λ i lt.
            let index : dst + k + i ≡ dst + (k + i) = omega arith in
            ap₂ (λ x y. merge x y) (ap old index) (same i lt))
          (λ i lt.
            ap (λ x. merge x (f i))
              (later (dst + i) ∙ merged-before ok old a (dst + k) n (dst + i) (omega arith)))

  tail-Advanced :
      (s s' : S) (dst src k e sz a : ℕ) (mem : Bytes)
      → ((p : ℕ) → content s' p ≡ merged merge (content s) dst (from mem src) k p)
      → k + e ≡ sz
      → e < 4
      → a ≡ dst + k
      → a % 4 ≡ 0
      → dst + sz ≤ size
      → (r : Bool × S) → replace flash s' a (λ v. copy v 0 (from mem (src + k)) e) ≡ r
      → Advanced s dst
          (from mem src)
          sz
          (if e == 0 then (some sz, s') else if r.0 then (some sz, r.1) else (none, r.1))
  tail-Advanced s s' dst src k e sz a mem part sum few place al fits r is_r =
      elim (Bool-cases (e == 0)) [
        | inl end ↦
            let same : k ≡ sz = ground (arith, end) in
            rw end
              (refl, λ p. part p ∙ ap (λ t. merged merge (content s) dst (from mem src) t p) same)
        | inr more ↦
            let some_left : e ≢ 0 = ground (arith, more) in
            let t =
              replace-Merged ok s' a 0 e (from mem (src + k)) al (omega (arith, ok.whole))
                (omega arith) in
            let plain : a + 0 ≡ dst + k = omega arith in
            let done : r.0 ≡ true = ap (λ (q : Bool × S). q.0) (sym is_r) ∙ t.0 in
            rw (more, done)
              (
                refl,
                λ p.
                    ap (λ (q : Bool × S). content q.1 p) (sym is_r)
                    ∙ t.1 p
                    ∙ ap (λ x. merged merge (content s') x (from mem (src + k)) e p) plain
                    ∙ merged-next ok (content s) (content s') (from mem src) (from mem (src + k))
                        dst k e p part
                        (λ i lt.
                          let index : src + k + i ≡ src + (k + i) = omega arith in ap mem index)
                    ∙ ap (λ x. merged merge (content s) dst (from mem src) x p) sum,
              )
      ]

  -- The flash once the double word before the middle is written as well, if there is one.
  abbrev with_first : S → ℕ → ℕ → ℕ → Bytes → S
  with_first s dst src d mem =
      if d == 0
      then s
      else (replace flash s (align_prev dst) (λ v. copy v (4 - d) (from mem src) d)).1

  first_written :
      (s1 : S) (dst src d : ℕ) (mem : Bytes)
      → (dst + d) % 4 ≡ 0
      → d < 4
      → dst + d ≤ size
      → d ≢ 0
      → Merged ok s1 dst
          (from mem src)
          d
          (replace flash s1 (align_prev dst) (λ v. copy v (4 - d) (from mem src) d))
  first_written s1 dst src d mem al less fits off =
      let place : align_prev dst + (4 - d) ≡ dst = omega arith in
      let r =
        replace-Merged ok s1 (align_prev dst) (4 - d) d (from mem src) (omega arith) (omega arith)
          (omega arith) in
      (r.0, λ p. r.1 p ∙ ap (λ x. merged merge (content s1) x (from mem src) d p) place)

  first_ok :
      (s1 : S) (dst src d : ℕ) (mem : Bytes)
      → (dst + d) % 4 ≡ 0
      → d < 4
      → dst + d ≤ size
      → (not (d == 0)
          && not (replace flash s1 (align_prev dst) (λ v. copy v (4 - d) (from mem src) d)).0)
        ≡ false
  first_ok s1 dst src d mem al less fits = elim (Bool-cases (d == 0)) [
    | inl aligned ↦ rw aligned refl
    | inr off ↦
        let ne : d ≢ 0 = ground (arith, off) in
        let f = first_written s1 dst src d mem al less fits ne in rw (off, f.0) refl
  ]

  first-Merged :
      (s s1 : S) (dst src d n : ℕ) (mem : Bytes)
      → ((q : ℕ) → content s1 q ≡ merged merge (content s) (dst + d) (from mem (src + d)) n q)
      → (dst + d) % 4 ≡ 0
      → d < 4
      → dst + d ≤ size
      → (p : ℕ)
      → content (with_first s1 dst src d mem) p
        ≡ merged merge (content s) dst (from mem src) (d + n) p
  first-Merged s s1 dst src d n mem middle al less fits p =
      let prior =
        merged-prior (content s) (content s1) (from mem src) (from mem (src + d)) dst n d p middle
          (λ i lt. let index : src + d + i ≡ src + (d + i) = omega arith in ap mem index) in
      elim (Bool-cases (d == 0)) [
        | inl aligned ↦
            let zero_d : d ≡ 0 = ground (arith, aligned) in
            let nothing : merged merge (content s1) dst (from mem src) d p ≡ content s1 p =
              ap (λ t. merged merge (content s1) dst (from mem src) t p) zero_d
              ∙ copy-zero (content s1) (λ i. merge (content s1 (dst + i)) (mem (src + i))) dst p in
            rw aligned (sym nothing ∙ prior)
        | inr off ↦
            let ne : d ≢ 0 = ground (arith, off) in
            let f = first_written s1 dst src d mem al less fits ne in rw off (f.1 p ∙ prior)
      ]

  slow_parts-Advanced :
      (s : S) (dst src sz d n e last_end : ℕ) (mem : Bytes)
      → align_next dst ≡ dst + d
      → d < 4
      → n % 4 ≡ 0
      → e < 4
      → d + n + e ≡ sz
      → add32 last_end 1 ≡ dst + (d + n)
      → dst + sz ≤ size
      → Advanced s dst (from mem src) sz (slow_parts flash s dst src sz n last_end e mem)
  unfolding slow_parts
  slow_parts-Advanced s dst src sz d n e last_end mem next less al_n few sum behind fits =
      let delta : sub32 (dst + d) dst ≡ d = omega (arith, ok.small) in
      let al : (dst + d) % 4 ≡ 0 = omega (arith, next) in
      let w = ok.writes s (dst + d) n (from mem (src + d)) al al_n (omega arith) in
      let s1 = (flash.write s (dst + d) (from mem (src + d)) n).1 in
      let good = first_ok s1 dst src d mem al less (omega arith) in
      let index : src + n + d ≡ src + (d + n) = omega arith in
      rw (next, delta, w.0, good, index)
        (tail-Advanced s (with_first s1 dst src d mem) dst src (d + n) e sz (add32 last_end 1) mem
          (first-Merged s s1 dst src d n mem w.1 al less (omega arith)) sum few behind
          (omega (arith, behind)) fits
          (replace flash (with_first s1 dst src d mem) (add32 last_end 1)
            (λ v. copy v 0 (from mem (src + (d + n))) e))
          refl)

  -- With `n` bytes in the middle, which ends at `last_end`.
  checked-Advanced :
      (s : S) (dst src sz n last_end end : ℕ) (mem : Bytes)
      → n % 4 ≡ 0
      → dst + sz ≤ size
      → 0 < dst + sz
      → end ≡ dst + sz - 1
      → last_end + 1 ≡ align_next dst + n
      → last_end ≤ end
      → end < last_end + 4
      → Advanced s dst (from mem src) sz (
          if ltb end last_end
          then (none, s)
          else if leb 4 (sub32 end last_end)
          then (none, s)
          else slow_parts flash s dst src sz n last_end (sub32 end last_end) mem)
  checked-Advanced s dst src sz n last_end end mem al_n fits some_bytes is_end is_last le lt =
      let t1 : ltb end last_end ≡ false = ground arith in
      let t2 : leb 4 (sub32 end last_end) ≡ false = ground (arith, ok.small) in
      let d = align_next dst - dst in
      let next : align_next dst ≡ dst + d = omega (arith, ok.small, ok.whole) in
      let few : sub32 end last_end < 4 = omega (arith, ok.small) in
      let sum : d + n + sub32 end last_end ≡ sz = omega (arith, ok.small, ok.whole) in
      let behind : add32 last_end 1 ≡ dst + (d + n) = omega (arith, ok.small, ok.whole) in
      rw (t1, t2)
        (slow_parts-Advanced s dst src sz d n (sub32 end last_end) last_end mem next
          (omega (arith, ok.small, ok.whole)) al_n few sum behind fits)

  -- `_slow_flash_write` writes all it is given, up to the size of the temporary buffer, where these are
  -- four bytes at least.
  pub slow_flash_write-Advanced :
      (s : S) (dst src rest : ℕ) (mem : Bytes)
      → 4 ≤ rest
      → dst + rest ≤ size
      → Advanced s dst
          (from mem src)
          (min rest tmpbuf_size)
          (slow_flash_write flash s dst src rest mem)
  unfolding slow_flash_write
  slow_flash_write-Advanced s dst src rest mem some_bytes fits =
      let sz = min rest tmpbuf_size in
      let wanted = min tmpbuf_size (align_prev sz) in
      let wanted_end = sub32 (add32 (align_next dst) wanted) 1 in
      let end = sub32 (add32 dst sz) 1 in
      let is_end : end ≡ dst + sz - 1 = omega (arith, ok.small, ok.whole) in
      let is_wanted : wanted_end + 1 ≡ align_next dst + wanted =
        omega (arith, ok.small, ok.whole) in
      let enough : 4 ≤ wanted = omega arith in
      let near : align_next dst ≤ dst + 3 = omega (arith, ok.small, ok.whole) in
      let low : dst ≤ align_next dst = omega (arith, ok.small, ok.whole) in
      elim (Bool-cases (ltb end wanted_end)) [
        | inl beyond ↦
            let lt : end < wanted_end = ground (arith, beyond) in
            rw beyond (
              checked-Advanced s dst src sz (sub32 wanted 4) (sub32 wanted_end 4) end mem
                (omega arith) (omega arith) (omega arith) is_end (omega (arith, ok.small))
                (omega (arith, ok.small)) (omega (arith, ok.small)))
        | inr inside ↦
            let le : wanted_end ≤ end = ground (arith, inside) in
            rw inside (
              checked-Advanced s dst src sz wanted wanted_end end mem (omega arith) (omega arith)
                (omega arith) is_end is_wanted le (omega arith))
      ]

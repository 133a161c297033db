-- ===== src/Circular/Window.antt =====
-- The contents of a circular buffer: `n` slots from index `i` on, going round at `size`.
use native.Mathlib.Nat.{mod-lt, mod-eq_of_lt, mod-eq-sub-mod, mod-add-mod, add-zero}
use libdfu.Base.{
  ℕ, zero, suc, ◌+◌, ◌-◌, ◌%◌, ◌≤◌, ◌<◌, ◌≡◌, ◌≢◌, refl, sym, ap, ap₂, ◌∙◌, List, [], ◌∷◌, ◌++◌,
  ltb, ltb→lt, Bool-cases, inl, inr, if◌then◌else◌, arith, length, get_or, set, get_or-set_self,
  get_or-set_ne, length-set, append_assoc, append-nil,
}

pub mod-wrap : (x size : ℕ) → x < size + size → x % size ≡ (if ltb x size then x else x - size)
mod-wrap x size h = elim (Bool-cases (ltb x size)) [
  | inl inside ↦ rw inside (mod-eq_of_lt (ltb→lt x size inside))
  | inr over ↦
      let le : size ≤ x = ground arith in rw over (mod-eq-sub-mod le ∙ mod-eq_of_lt (omega arith))
]

module _ {ℓ} {A : Type ℓ} where
  -- `memcpy (&xs[i], src, n)`
  abbrev pub blit : List A → ℕ → List A → List A
  blit xs i [] = xs
  blit xs i (v ∷ vs) = blit (set xs i v) (i + 1) vs

  pub length-blit : (xs : List A) (i : ℕ) (vs : List A) → length (blit xs i vs) ≡ length xs
  length-blit xs i [] = refl
  length-blit xs i (v ∷ vs) = length-blit (set xs i v) (i + 1) vs ∙ length-set xs i v

module _ {ℓ} {A : Type ℓ} (d : A) (size : ℕ) where
  abbrev pub window : List A → ℕ → ℕ → List A
  window xs i zero = []
  window xs i (suc n) = get_or xs i d ∷ window xs ((i + 1) % size) n

  pub length-window : (xs : List A) (i n : ℕ) → length (window xs i n) ≡ n
  length-window xs i zero = refl
  length-window xs i (suc n) = ap suc (length-window xs ((i + 1) % size) n)

  pub window-snoc :
      (xs : List A) (i n : ℕ)
      → i < size
      → window xs i (suc n) ≡ window xs i n ++ (get_or xs ((i + n) % size) d ∷ [])
  window-snoc xs i zero h = rw (add-zero, mod-eq_of_lt h)
  window-snoc xs i (suc n) h =
      ap (λ t. get_or xs i d ∷ t)
        (window-snoc xs ((i + 1) % size) n (mod-lt (i + 1) (omega arith)) ∙ rw shift)
    where
      shift : ((i + 1) % size + n) % size ≡ (i + suc n) % size
      shift = mod-add-mod (i + 1) size n ∙ ap (λ k. k % size) (omega arith)

  -- A write outside the window does not change it.
  pub window-set_avoid :
      (xs : List A) (i n j : ℕ) (v : A)
      → i < size
      → ((k : ℕ) → k < n → (i + k) % size ≢ j)
      → window (set xs j v) i n ≡ window xs i n
  window-set_avoid xs i zero j v h ne = refl
  window-set_avoid xs i (suc n) j v h ne =
      ap₂ ◌∷◌ (get_or-set_ne xs j i v d (λ e. ne 0 (omega arith) (here e)))
        (window-set_avoid xs ((i + 1) % size) n j v (mod-lt (i + 1) (omega arith)) later)
    where
      here : j ≡ i → (i + 0) % size ≡ j
      here e = rw add-zero (mod-eq_of_lt h ∙ sym e)

      later : (k : ℕ) → k < n → ((i + 1) % size + k) % size ≢ j
      later k lt e =
          ne (suc k) (omega arith)
            (ap (λ m. m % size) (omega arith) ∙ sym (mod-add-mod (i + 1) size k) ∙ e)

  pub window-set_past :
      (xs : List A) (i n : ℕ) (v : A)
      → i < size
      → n < size
      → window (set xs ((i + n) % size) v) i n ≡ window xs i n
  window-set_past xs i n v h small = window-set_avoid xs i n ((i + n) % size) v h distinct
    where
      distinct : (k : ℕ) → k < n → (i + k) % size ≢ (i + n) % size
      distinct k lt = ground (arith, mod-wrap (i + k) size, mod-wrap (i + n) size)

  -- Writing just past a window extends it by what was written.
  pub window-set_snoc :
      (xs : List A) (i n : ℕ) (v : A)
      → size ≤ length xs
      → i < size
      → n < size
      → window (set xs ((i + n) % size) v) i (suc n) ≡ window xs i n ++ (v ∷ [])
  window-set_snoc xs i n v room h small =
      window-snoc (set xs ((i + n) % size) v) i n h
      ∙ ap₂ (λ s t. s ++ (t ∷ [])) (window-set_past xs i n v h small)
          (get_or-set_self xs ((i + n) % size) v d inside)
    where
      inside : (i + n) % size < length xs
      inside = omega (arith, mod-lt (i + n) {m = size} (omega arith))

  succ-mod : (x j : ℕ) → j ≡ x % size → j + 1 < size → j + 1 ≡ (x + 1) % size
  succ-mod x j e h = sym (sym (mod-add-mod x size 1) ∙ rw (← e) (mod-eq_of_lt h))

  -- A copy just past a window, up to the end of the buffer at most, extends the window by it.
  pub window-blit :
      (vs xs : List A) (i n j : ℕ)
      → size ≤ length xs
      → i < size
      → n + length vs ≤ size
      → (0 < length vs → j ≡ (i + n) % size)
      → j + length vs ≤ size
      → window (blit xs j vs) i (n + length vs) ≡ window xs i n ++ vs
  window-blit [] xs i n j room h small at fits = rw add-zero (sym (append-nil _))
  window-blit (v ∷ vs) xs i n j room h small at fits =
      let here : j ≡ (i + n) % size = at (omega arith) in
      let room' : size ≤ length (set xs j v) = omega (arith, length-set xs j v) in
      let next : 0 < length vs → j + 1 ≡ (i + suc n) % size =
        λ more. succ-mod (i + n) j here (omega arith) ∙ ap (λ m. m % size) (omega arith) in
      let extended : window (set xs j v) i (suc n) ≡ window xs i n ++ (v ∷ []) =
        ap (λ m. window (set xs m v) i (suc n)) here
        ∙ window-set_snoc xs i n v room h (omega arith) in
      ap (window (blit (set xs j v) (j + 1) vs) i) (omega arith)
      ∙ window-blit vs (set xs j v) i (suc n) (j + 1) room' h (omega arith) next (omega arith)
      ∙ ap (λ t. t ++ vs) extended
      ∙ append_assoc (window xs i n) (v ∷ []) vs

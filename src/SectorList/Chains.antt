-- ===== src/SectorList/Chains.antt =====
-- What the links stand for: a head and the sectors behind it, in order and back to the head.
use mathlib.Core.Path.{subst}
use libdfu.Base.{ℕ, ◌≡◌, ◌≢◌, sym, ◌∙◌, List, [], ◌∷◌, arith}
use libdfu.Timeouts.Deadlines.{Absent, Distinct}
use libdfu.SectorList.{Links, sector_add, sector_del}

-- From `a` by the sectors `xs` to `b`, and back.
abbrev pub Chain : Links → ℕ → List ℕ → ℕ → Type 0
Chain l a [] b = (l.next a ≡ b) × (l.prev b ≡ a)
Chain l a (x ∷ xs) b = (l.next a ≡ x) × (l.prev x ≡ a) × Chain l x xs b

-- Links that differ in `next` at two places and in `prev` at two places.
pub record Apart (l l' : Links) (k1 k2 j1 j2 : ℕ) : Type 0 where
  pub next : (q : ℕ) → k1 ≢ q → k2 ≢ q → l'.next q ≡ l.next q
  pub prev : (q : ℕ) → j1 ≢ q → j2 ≢ q → l'.prev q ≡ l.prev q

-- A chain that does not pass those places is kept.
pub Chain-kept :
    {l l' : Links} {k1 k2 j1 j2 : ℕ}
    → Apart l l' k1 k2 j1 j2
    → (a : ℕ) (xs : List ℕ) (b : ℕ) → Absent k1 (a ∷ xs)
    → Absent k2 (a ∷ xs)
    → Absent j1 (b ∷ xs)
    → Absent j2 (b ∷ xs)
    → Chain l a xs b
    → Chain l' a xs b
Chain-kept d a [] b h1 h2 g1 g2 c = (d.next a h1.0 h2.0 ∙ c.0, d.prev b g1.0 g2.0 ∙ c.1)
Chain-kept d a (x ∷ xs) b h1 h2 g1 g2 c = (
  d.next a h1.0 h2.0 ∙ c.0,
  d.prev x g1.1.0 g2.1.0 ∙ c.1,
  Chain-kept d x xs b h1.1 h2.1 (g1.0, g1.1.1) (g2.0, g2.1.1) c.2,
)

pub sector_add-Apart : (l : Links) (h s : ℕ) → Apart l (sector_add l h s) s h s (l.next h)
unfolding sector_add
sector_add-Apart l h s = record {
  next = λ q n1 n2. ground (arith, n1, n2);
  prev = λ q n1 n2. ground (arith, n1, n2);
}

pub sector_del-Apart :
    (l : Links) (s : ℕ) → Apart l (sector_del l s) (l.prev s) (l.prev s) (l.next s) (l.next s)
unfolding sector_del
sector_del-Apart l s = record {
  next = λ q n1 n2. ground (arith, n1, n2);
  prev = λ q n1 n2. ground (arith, n1, n2);
}

-- A sector that is in no list becomes the first behind the head.
pub sector_add-first :
    (l : Links) (h s : ℕ) (xs : List ℕ)
    → Chain l h xs h
    → Absent s (h ∷ xs)
    → Absent h xs
    → Distinct xs
    → Chain (sector_add l h s) h (s ∷ xs) h
unfolding sector_add
sector_add-first l h s [] c fresh out apart = (
  ground (arith, fresh.0),
  ground (arith, c.0, fresh.0),
  (ground (arith, c.0, fresh.0), ground (arith, c.0)),
)
sector_add-first l h s (x ∷ xs) c fresh out apart =
    let first = c.0 in
    (
      ground (arith, fresh.0),
      ground (arith, c.0, fresh.1.0),
      (
        ground (arith, c.0, fresh.0),
        ground (arith, c.0),
        Chain-kept (sector_add-Apart l h s) x xs h fresh.1 out (fresh.0, fresh.1.1)
            (subst (λ k. Absent k (h ∷ xs)) (sym first) ((λ e. out.0 (sym e)), apart.0)) c.2,
      ),
    )

-- Taking the first sector off.
pub sector_del-first :
    (l : Links) (h x : ℕ) (xs : List ℕ)
    → Chain l h (x ∷ xs) h
    → Absent h xs
    → Distinct xs
    → Chain (sector_del l x) h xs h
unfolding sector_del
sector_del-first l h x [] c out apart = (ground (arith, c.1, c.2.0), ground (arith, c.1, c.2.0))
sector_del-first l h x (y ∷ ys) c out apart =
    let before = c.1 in
    let behind = c.2.0 in
    (
      ground (arith, c.1, c.2.0),
      ground (arith, c.1, c.2.0),
      Chain-kept (sector_del-Apart l x) y ys h (subst (λ k. Absent k (y ∷ ys)) (sym before) out)
          (subst (λ k. Absent k (y ∷ ys)) (sym before) out)
          (subst (λ k. Absent k (h ∷ ys)) (sym behind) ((λ e. out.0 (sym e)), apart.0))
          (subst (λ k. Absent k (h ∷ ys)) (sym behind) ((λ e. out.0 (sym e)), apart.0)) c.2.2,
    )

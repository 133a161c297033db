-- ===== src/Timeouts/Deadlines.antt =====
-- What the timeout list stands for: the deadlines in order.
use libdfu.Base.{
  ℕ, zero, suc, ◌+◌, ◌^◌, ◌<◌, ◌≡◌, ◌≢◌, refl, sym, ap, ◌∙◌, length, map, replicate,
  length-replicate, ◌++◌, Option, none, some, List, [], ◌∷◌, ltb, if◌then◌else◌, arith,
}
use libdfu.Timeouts.{update}
use mathlib.Core.Path.{subst}

-- The listed timeouts with the time each of them is due.
abbrev pub deadlines : ℕ → (ℕ → ℕ) → List ℕ → List (ℕ × ℕ)
deadlines base values [] = []
deadlines base values (p ∷ ids) = (p, base + values p) ∷ deadlines (base + values p) values ids

-- A new deadline goes before the first that is not earlier.
unfoldable pub insert_sorted : ℕ → ℕ → List (ℕ × ℕ) → List (ℕ × ℕ)
insert_sorted p at [] = (p, at) ∷ []
insert_sorted p at ((q, due) ∷ rest) =
    if ltb due at then (q, due) ∷ insert_sorted p at rest else (p, at) ∷ (q, due) ∷ rest

-- Every deadline lies in the positive half of an `int`.
abbrev pub InRange : ℕ → (ℕ → ℕ) → List ℕ → Type 0
InRange base values [] = base < 2 ^ 31
InRange base values (p ∷ ids) = (base < 2 ^ 31) × InRange (base + values p) values ids

abbrev pub Absent : ℕ → List ℕ → Type 0
Absent to [] = Unit
Absent to (p ∷ ids) = (to ≢ p) × Absent to ids

-- No timeout stands in the list twice.
abbrev pub Distinct : List ℕ → Type 0
Distinct [] = Unit
Distinct (p ∷ ids) = Absent p ids × Distinct ids

-- The array: the listed timeouts, then `k` null pointers.
abbrev pub array : List ℕ → ℕ → List (Option ℕ)
array ids k = map some ids ++ replicate k none

abbrev pub Same : (ℕ → ℕ) → (ℕ → ℕ) → List ℕ → Type 0
Same f g [] = Unit
Same f g (p ∷ ids) = (f p ≡ g p) × Same f g ids

-- Deadlines depend on the listed timeouts alone.
pub deadlines-Same :
    (base : ℕ) (f g : ℕ → ℕ) (ids : List ℕ)
    → Same f g ids
    → deadlines base f ids ≡ deadlines base g ids
deadlines-Same base f g [] h = refl
deadlines-Same base f g (p ∷ ids) h =
    ap (λ t. (p, base + t) ∷ deadlines (base + t) f ids) h.0
    ∙ ap (λ l. (p, base + g p) ∷ l) (deadlines-Same (base + g p) f g ids h.1)

pub InRange-Same :
    (base : ℕ) (f g : ℕ → ℕ) (ids : List ℕ) → Same g f ids → InRange base f ids → InRange base g ids
InRange-Same base f g [] h r = r
InRange-Same base f g (p ∷ ids) h r = (
  r.0,
  subst (λ t. InRange (base + t) g ids) (sym h.0) (InRange-Same (base + f p) f g ids h.1 r.1),
)

-- A write to a timeout that is not listed.
pub Same-update : (f : ℕ → ℕ) (p v : ℕ) (ids : List ℕ) → Absent p ids → Same (update f p v) f ids
Same-update f p v [] h = tt
Same-update f p v (q ∷ ids) h = (ground (arith, h.0), Same-update f p v ids h.1)

pub Absent-Same :
    (f g : ℕ → ℕ) (to : ℕ) (ids : List ℕ)
    → ((q : ℕ) → to ≢ q → f q ≡ g q)
    → Absent to ids
    → Same f g ids
Absent-Same f g to [] h a = tt
Absent-Same f g to (q ∷ ids) h a = (h q a.0, Absent-Same f g to ids h a.1)

pub array_last : (k : ℕ) → replicate (suc k) none ≡ replicate {A = Option ℕ} k none ++ (none ∷ [])
array_last zero = refl
array_last (suc k) = ap (λ l. none ∷ l) (array_last k)

pub length-array : (ids : List ℕ) (k : ℕ) → length (array ids k) ≡ length ids + k
length-array [] k = length-replicate k none ∙ omega arith
length-array (p ∷ ids) k = omega (arith, length-array ids k)

pub InRange-base : (base : ℕ) (f : ℕ → ℕ) (ids : List ℕ) → InRange base f ids → base < 2 ^ 31
InRange-base base f [] r = r
InRange-base base f (p ∷ ids) r = r.0

-- ===== src/SectorList/Allocate.antt =====
-- `_get_sectors` takes as many free sectors as it is asked for, or none.
use libdfu.Base.{
  ℕ, zero, suc, ◌≤◌, ◌<◌, ◌≡◌, refl, sym, ap, ◌∙◌, true, false, Option, none, some, List, [], ◌∷◌,
  length, drop, take, arith, ◌==◌, ltb, Bool-cases, inl, inr, if◌then◌else◌,
}
use libdfu.Timeouts.Deadlines.{Absent, Distinct}
use libdfu.SectorList.{
  Links, sector_list_init, count_from, sectors_list_count, move_sectors, get_sectors,
}
use libdfu.SectorList.Chains.{Chain, Chain-kept, Apart}
use libdfu.SectorList.Moves.{AllAbsent, TwoLists, onto, move_sectors-TwoLists}

count_from-length :
    (fuel : ℕ) (l : Links) (h a : ℕ) (xs : List ℕ)
    → length xs ≤ fuel
    → Chain l a xs h
    → Absent h xs
    → count_from fuel l h (l.next a) ≡ length xs
unfolding count_from
count_from-length zero l h a [] le c out = refl
count_from-length (suc fuel) l h a [] le c out =
    let back : (l.next a == h) ≡ true = ground (arith, c.0) in rw back refl
count_from-length zero l h a (x ∷ xs) le c out = absurd (omega arith)
count_from-length (suc fuel) l h a (x ∷ xs) le c out =
    let on : (l.next a == h) ≡ false = ground (arith, c.0, out.0) in
    rw on (
      ap (λ s. suc (count_from fuel l h (l.next s))) (c.0)
      ∙ ap suc (count_from-length fuel l h x xs (omega arith) c.2 out.1))

init-Apart : (l : Links) (s : ℕ) → Apart l (sector_list_init l s) s s s s
unfolding sector_list_init
init-Apart l s = record {
  next = λ q n1 n2. ground (arith, n1);
  prev = λ q n1 n2. ground (arith, n1);
}

init-Chain : (l : Links) (s : ℕ) → Chain (sector_list_init l s) s [] s
unfolding sector_list_init
init-Chain l s = (ground arith, ground arith)

none-AllAbsent : (xs : List ℕ) (out : ℕ) → Absent out xs → AllAbsent xs (out ∷ [])
none-AllAbsent [] out h = tt
none-AllAbsent (x ∷ xs) out h = (((λ e. h.0 (sym e)), tt), none-AllAbsent xs out h.1)

init-TwoLists :
    (l : Links) (free out : ℕ) (xs : List ℕ)
    → Chain l free xs free
    → Distinct (free ∷ xs)
    → Absent out (free ∷ xs)
    → TwoLists (sector_list_init l out) free out xs []
init-TwoLists l free out xs c apart fresh = record {
  free_chain = Chain-kept (init-Apart l out) free xs free fresh fresh fresh fresh c;
  out_chain = init-Chain l out;
  free_distinct = apart;
  out_distinct = (tt, tt);
  heads = λ e. fresh.0 (sym e);
  free_apart = none-AllAbsent xs out fresh.1;
  out_apart = tt;
  free_out = tt;
  out_free = fresh.1;
}

-- What `_get_sectors` did with the free sectors `xs`.
pub record Took (free out num : ℕ) (xs : List ℕ) (r : Option ℕ × Links) : Type 0 where
  pub enough :
      num ≤ length xs
      → (r.0 ≡ some num) × TwoLists r.1 free out (drop num xs) (onto (take num xs) [])
  pub too_few : length xs < num → (r.0 ≡ none) × TwoLists r.1 free out xs []

-- `_get_sectors` on a list of free sectors, each of which stands there once, for a head that is not among
-- them, where the list is not longer than there are sectors: if there are as many free sectors as asked
-- for, the new list has just these and the free list has the others, in order; else it returns -1, the
-- new list is empty and the free list is as it was.
pub get_sectors-Took :
    (total : ℕ) (l : Links) (free out num : ℕ) (xs : List ℕ)
    → Chain l free xs free
    → Distinct (free ∷ xs)
    → Absent out (free ∷ xs)
    → length xs ≤ total
    → Took free out num xs (get_sectors total l free out num)
unfolding get_sectors sectors_list_count
get_sectors-Took total l free out num xs c apart fresh small =
    let t = init-TwoLists l free out xs c apart fresh in
    let count =
      count_from-length total (sector_list_init l out) free free xs small t.free_chain apart.0 in
    rw count (taken t)
  where
    taken :
        TwoLists (sector_list_init l out) free out xs []
        → Took free out num xs (
            if ltb (length xs) num
            then (none, sector_list_init l out)
            else (some num, move_sectors num (sector_list_init l out) free out))
    taken t = elim (Bool-cases (ltb (length xs) num)) [
      | inl few ↦
          rw few
            (record { enough = λ le. absurd (ground (arith, few, le)); too_few = λ lt. (refl, t) })
      | inr many ↦ rw many (record {
        enough =
            λ le. (refl, move_sectors-TwoLists num (sector_list_init l out) free out xs [] le t);
        too_few = λ lt. absurd (ground (arith, many, lt));
      })
    ]

-- ===== src/SectorList/Release.antt =====
-- When a file is removed, its sectors become free again.
use mathlib.Core.Path.{subst}
use libdfu.Base.{
  ℕ, zero, suc, ◌≤◌, ◌≡◌, refl, sym, ap, ◌∙◌, true, false, List, [], ◌∷◌, length, arith, ◌==◌,
}
use libdfu.SectorList.{Links, sector_add, sector_del, free_sectors}
use libdfu.SectorList.Chains.{Chain}
use libdfu.SectorList.Moves.{TwoLists, onto, moved}

-- The two lists the other way round.
pub swapped :
    (l : Links) (free out : ℕ) (xs ys : List ℕ)
    → TwoLists l free out xs ys
    → TwoLists l out free ys xs
swapped l free out xs ys t = record {
  free_chain = t.out_chain;
  out_chain = t.free_chain;
  free_distinct = t.out_distinct;
  out_distinct = t.free_distinct;
  heads = λ e. t.heads (sym e);
  free_apart = t.out_apart;
  out_apart = t.free_apart;
  free_out = t.out_free;
  out_free = t.free_out;
}

-- Where chains go on with the same sectors.
next-same :
    (l l' : Links) (a a' : ℕ) (xs : List ℕ) (b : ℕ)
    → Chain l a xs b
    → Chain l' a' xs b
    → l.next a ≡ l'.next a'
next-same l l' a a' [] b c c' = c.0 ∙ sym (c'.0)
next-same l l' a a' (x ∷ xs) b c c' = c.0 ∙ sym (c'.0)

free_sectors-end :
    (fuel : ℕ) (l : Links) (head free tmp : ℕ) → free_sectors fuel l head free head tmp ≡ l
unfolding free_sectors
free_sectors-end zero l head free tmp = refl
free_sectors-end (suc n) l head free tmp =
    let end : (head == head) ≡ true = ground arith in rw end refl

-- The loop of `spi_flash_fc_remove`, started at the first sector of a file with the next one behind it,
-- and with fuel for each sector: the free sectors and those of the file, which share none, become one
-- list of free sectors with those of the file in front, the last one first, and the file has none left.
pub free_sectors-TwoLists :
    (fuel : ℕ) (l : Links) (head free s tmp : ℕ) (xs ys : List ℕ)
    → length xs ≤ fuel
    → s ≡ l.next head
    → tmp ≡ l.next s
    → TwoLists l head free xs ys
    → TwoLists (free_sectors fuel l head free s tmp) head free [] (onto xs ys)
unfolding free_sectors
free_sectors-TwoLists fuel l head free s tmp [] ys le is_s is_tmp t =
    subst (λ k. TwoLists (free_sectors fuel l head free k tmp) head free [] ys)
      (sym (is_s ∙ t.free_chain.0))
      (subst (λ k. TwoLists k head free [] ys) (sym (free_sectors-end fuel l head free tmp)) t)
free_sectors-TwoLists zero l head free s tmp (x ∷ xs) ys le is_s is_tmp t = absurd (omega arith)
free_sectors-TwoLists (suc n) l head free s tmp (x ∷ xs) ys le is_s is_tmp t =
    let is_x : s ≡ x = is_s ∙ t.free_chain.0 in
    let l' = sector_add (sector_del l s) free s in
    let t' : TwoLists l' head free xs (x ∷ ys) =
      subst (λ k. TwoLists (sector_add (sector_del l k) free k) head free xs (x ∷ ys)) (sym is_x)
        (moved l head free x xs ys t) in
    let on : (s == head) ≡ false = ground (arith, is_x, t.free_distinct.0.0) in
    let next : tmp ≡ l'.next head =
      is_tmp ∙ ap l.next is_x ∙ next-same l l' x head xs head t.free_chain.2 t'.free_chain in
    rw on (
      free_sectors-TwoLists n l' head free tmp (l'.next tmp) xs (x ∷ ys) (omega arith) next refl t')

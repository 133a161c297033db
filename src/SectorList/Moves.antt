-- ===== src/SectorList/Moves.antt =====
-- Sectors move between the list of the free ones and the list of a file; none is lost.
use mathlib.Core.Path.{subst}
use libdfu.Base.{ℕ, zero, suc, ◌≤◌, ◌≢◌, sym, List, [], ◌∷◌, length, drop, take, arith}
use libdfu.Timeouts.Deadlines.{Absent, Distinct}
use libdfu.SectorList.{Links, sector_add, sector_del, move_sectors}
use libdfu.SectorList.Chains.{
  Chain, Chain-kept, sector_add-Apart, sector_del-Apart, sector_add-first, sector_del-first,
}

-- No sector of the first list stands in the second.
abbrev pub AllAbsent : List ℕ → List ℕ → Type 0
AllAbsent [] zs = Unit
AllAbsent (x ∷ xs) zs = Absent x zs × AllAbsent xs zs

-- Two lists that share no sector and no head.
pub record TwoLists (l : Links) (free out : ℕ) (xs ys : List ℕ) : Type 0 where
  pub free_chain : Chain l free xs free
  pub out_chain : Chain l out ys out
  pub free_distinct : Distinct (free ∷ xs)
  pub out_distinct : Distinct (out ∷ ys)
  pub heads : free ≢ out
  pub free_apart : AllAbsent xs (out ∷ ys)
  pub out_apart : AllAbsent ys (free ∷ xs)
  pub free_out : Absent free ys
  pub out_free : Absent out xs

-- The rest of a list in front of another, last one first.
abbrev pub onto : List ℕ → List ℕ → List ℕ
onto [] ys = ys
onto (x ∷ xs) ys = onto xs (x ∷ ys)

next-Absent :
    (l : Links) (a : ℕ) (xs : List ℕ) (b : ℕ) (zs : List ℕ)
    → Chain l a xs b
    → Absent b zs
    → AllAbsent xs zs
    → Absent (l.next a) zs
next-Absent l a [] b zs c h all = subst (λ k. Absent k zs) (sym (c.0)) h
next-Absent l a (x ∷ xs) b zs c h all = subst (λ k. Absent k zs) (sym (c.0)) all.0

AllAbsent-drop :
    (xs : List ℕ) (a x : ℕ) (zs : List ℕ) → AllAbsent xs (a ∷ x ∷ zs) → AllAbsent xs (a ∷ zs)
AllAbsent-drop [] a x zs h = tt
AllAbsent-drop (y ∷ xs) a x zs h = ((h.0.0, h.0.1.1), AllAbsent-drop xs a x zs h.1)

AllAbsent-insert :
    (xs : List ℕ) (a x : ℕ) (zs : List ℕ)
    → AllAbsent xs (a ∷ zs)
    → Absent x xs
    → AllAbsent xs (a ∷ x ∷ zs)
AllAbsent-insert [] a x zs h n = tt
AllAbsent-insert (y ∷ xs) a x zs h n =
    ((h.0.0, ((λ e. n.0 (sym e)), h.0.1)), AllAbsent-insert xs a x zs h.1 n.1)

pub moved :
    (l : Links) (free out x : ℕ) (xs ys : List ℕ)
    → TwoLists l free out (x ∷ xs) ys
    → TwoLists (sector_add (sector_del l x) out x) free out xs (x ∷ ys)
moved l free out x xs ys t =
    let c = t.free_chain in
    let f = t.free_distinct in
    let not_free : Absent free (out ∷ ys) = (t.heads, t.free_out) in
    let next_absent : Absent (l.next x) (out ∷ ys) =
      next-Absent l x xs free (out ∷ ys) c.2 not_free t.free_apart.1 in
    let prev_absent : Absent (l.prev x) (out ∷ ys) =
      subst (λ k. Absent k (out ∷ ys)) (sym (c.1)) not_free in
    let l1 = sector_del l x in
    let free1 = sector_del-first l free x xs c f.0.1 f.1.1 in
    let out1 =
      Chain-kept (sector_del-Apart l x) out ys out prev_absent prev_absent next_absent next_absent
        t.out_chain in
    let x_free : Absent x (free ∷ xs) = ((λ e. f.0.0 (sym e)), f.1.0) in
    let not_out : Absent out (free ∷ xs) = ((λ e. t.heads (sym e)), t.out_free.1) in
    let ys_apart = AllAbsent-drop ys free x xs t.out_apart in
    let out_next : Absent (l1.next out) (free ∷ xs) =
      next-Absent l1 out ys out (free ∷ xs) out1 not_out ys_apart in
    record {
      free_chain =
          Chain-kept (sector_add-Apart l1 out x) free xs free x_free not_out x_free out_next free1;
      out_chain =
          sector_add-first l1 out x ys out1 t.free_apart.0 t.out_distinct.0 t.out_distinct.1;
      free_distinct = (f.0.1, f.1.1);
      out_distinct = ((t.out_free.0, t.out_distinct.0), (t.free_apart.0.1, t.out_distinct.1));
      heads = t.heads;
      free_apart = AllAbsent-insert xs out x ys t.free_apart.1 f.1.0;
      out_apart = (x_free, ys_apart);
      free_out = (f.0.0, t.free_out);
      out_free = t.out_free.1;
    }

-- Moving `n` sectors from the list of the free sectors to another, where there are so many: the two
-- lists, of which no sector and no head is shared, are then the free sectors without the first `n`, and
-- these `n`, the last one first, in front of what the other list was.
pub move_sectors-TwoLists :
    (n : ℕ) (l : Links) (free out : ℕ) (xs ys : List ℕ)
    → n ≤ length xs
    → TwoLists l free out xs ys
    → TwoLists (move_sectors n l free out) free out (drop n xs) (onto (take n xs) ys)
unfolding move_sectors
move_sectors-TwoLists zero l free out xs ys le t = t
move_sectors-TwoLists (suc n) l free out [] ys le t = absurd (omega arith)
move_sectors-TwoLists (suc n) l free out (x ∷ xs) ys le t =
    let first = t.free_chain.0 in
    subst
      (λ s.
        TwoLists (move_sectors n (sector_add (sector_del l s) out s) free out) free out (drop n xs)
          (onto (take n xs) (x ∷ ys)))
      (sym first)
      (move_sectors-TwoLists n (sector_add (sector_del l x) out x) free out xs (x ∷ ys)
        (omega arith) (moved l free out x xs ys t))

-- ===== src/Stm32/Safe.antt =====
-- A chunk that `stm32_usart_must_erase` takes for erased.
use mathlib.Core.Option.{some-injective, some-ne-none}
use mathlib.Core.List.{cons-ne-nil}
use mathlib.Core.Bool.{true≢false}
use libdfu.Base.{
  ℕ, zero, suc, ◌+◌, ◌-◌, ◌^◌, ◌≤◌, ◌<◌, ◌≡◌, refl, sym, ap, ◌∙◌, Bool, true, false, ◌&&◌, Option,
  none, some, List, [], ◌∷◌, leb, ltb, arith, Bool-cases, inl, inr, if◌then◌else◌,
}
use libdfu.Stm32.{
  MemoryArea, EraseNeed, not_mapped, not_flash, too_many, all_erased, needed, find_area,
  map_sectors, to_erase, not_erased, need_of_list, need_of_sectors, need_of_area, erase_need,
  is_flash, test_bit, bitmask, max_nsectors_erase,
}
use libdfu.Stm32.Erased.{bits}
use libdfu.Stm32.Sectors.{total, Inside, map_sectors-Found}

-- The sectors of an area make up the area, and its mask has a bit for that of the last byte of a chunk.
pub record IsMapped (addr l : ℕ) (a : MemoryArea) : Type 0 where
  pub small : a.start + total a.sectors < 2 ^ 32
  pub covered : a.size ≤ total a.sectors
  pub room : (k : ℕ) → Inside a.sectors a.start (addr + l - 1) k → k < bits (bitmask a)

-- The chunk lies in an area, and every sector from that of its first byte to that of its last one is
-- marked as erased, with a bit in the mask of the area.
pub record Erased (areas : List MemoryArea) (addr l : ℕ) : Type 0 where
  pub number : ℕ
  pub area : MemoryArea
  pub lies_in : find_area areas 0 addr l ≡ some (number, area)
  pub first : ℕ
  pub last : ℕ
  pub starts : Inside area.sectors area.start addr first
  pub ends : Inside area.sectors area.start (addr + l - 1) last
  pub in_mask : last < bits (bitmask area)
  pub marked : (k : ℕ) → first ≤ k → k ≤ last → test_bit k (bitmask area) ≡ true

find_area-inside :
    (areas : List MemoryArea) (i addr l number : ℕ) (a : MemoryArea)
    → find_area areas i addr l ≡ some (number, a)
    → (a.start ≤ addr) × (addr + l ≤ a.start + a.size)
unfolding find_area
find_area-inside [] i addr l number a e = absurd (some-ne-none (number, a) (sym e))
find_area-inside (ma ∷ areas) i addr l number a e =
    elim (Bool-cases (leb ma.start addr && leb (addr + l) (ma.start + ma.size))) [
      | inl here ↦
          let same : ma ≡ a =
            ap (λ (p : ℕ × MemoryArea). p.1) (some-injective _ _ (rw here at e)) in
          rw same at (inside ma here)
      | inr later ↦ find_area-inside areas (i + 1) addr l number a (rw later at e)
    ]
  where
    inside :
        (b : MemoryArea)
        → (leb b.start addr && leb (addr + l) (b.start + b.size)) ≡ true
        → (b.start ≤ addr) × (addr + l ≤ b.start + b.size)
    inside b h = (ground (arith, h), ground (arith, h))

not_erased-none_left :
    (n i offset : ℕ) (l : List ℕ)
    → not_erased n i offset l ≡ []
    → (k : ℕ) → i ≤ k
    → k < i + n
    → test_bit k l ≡ true
unfolding not_erased
not_erased-none_left zero i offset l e k le lt = absurd (omega arith)
not_erased-none_left (suc n) i offset l e k le lt = elim (Bool-cases (test_bit i l)) [
  | inl marked ↦ elim (Bool-cases (ltb i k)) [
    | inl beyond ↦
        not_erased-none_left n (i + 1) offset l (rw marked at e) k (ground (arith, beyond))
          (omega arith)
    | inr here ↦ let same : i ≡ k = ground (arith, here) in rw same at marked
  ]
  | inr fresh ↦ absurd (cons-ne-nil (i + offset) _ (rw fresh at e))
]

abbrev is_all_erased : EraseNeed → Bool
is_all_erased all_erased = true
is_all_erased not_mapped = false
is_all_erased not_flash = false
is_all_erased too_many = false
is_all_erased (needed i sectors) = false

list-erased : (i : ℕ) (o : Option (List ℕ)) → is_all_erased (need_of_list i o) ≡ true → o ≡ some []
unfolding need_of_list
list-erased i none e = absurd (true≢false (sym e))
list-erased i (some []) e = refl
list-erased i (some (s ∷ sectors)) e = absurd (true≢false (sym e))

to_erase-none_left :
    (a : MemoryArea) (start nsec : ℕ)
    → to_erase a (start, nsec) ≡ some []
    → not_erased nsec (start - a.sectors_offset) a.sectors_offset (bitmask a) ≡ []
unfolding to_erase
to_erase-none_left a start nsec e = elim (Bool-cases (ltb max_nsectors_erase nsec)) [
  | inl many ↦ absurd (some-ne-none [] (sym (rw many at e)))
  | inr few ↦ some-injective _ _ (rw few at e)
]

module _ (areas : List MemoryArea) (addr l : ℕ) (some_bytes : 0 < l)
    (mapped : (i : ℕ) (a : MemoryArea)
      → find_area areas 0 addr l ≡ some (i, a)
      → IsMapped addr l a) where
  sectors-Erased :
      (i : ℕ) (a : MemoryArea)
      → find_area areas 0 addr l ≡ some (i, a)
      → is_all_erased (need_of_sectors i a (map_sectors a addr l)) ≡ true
      → Erased areas addr l
  unfolding need_of_sectors
  sectors-Erased i a lies_in e =
      let m = mapped i a lies_in in
      let bounds = find_area-inside areas 0 addr l i a lies_in in
      let f =
        map_sectors-Found a addr l some_bytes bounds.0 (omega (arith, bounds.1, m.covered))
          m.small in
      let left =
        to_erase-none_left a (a.sectors_offset + f.first) (suc f.more) (
          list-erased i (to_erase a (a.sectors_offset + f.first, suc f.more)) (rw f.result at e)) in
      record {
        number = i;
        area = a;
        lies_in = lies_in;
        first = f.first;
        last = f.first + f.more;
        starts = f.starts;
        ends = f.ends;
        in_mask = m.room (f.first + f.more) f.ends;
        marked = λ k le lt.
            not_erased-none_left (suc f.more) (a.sectors_offset + f.first - a.sectors_offset)
              a.sectors_offset (bitmask a) left k (omega arith) (omega arith);
      }

  area-Erased :
      (o : Option (ℕ × MemoryArea))
      → find_area areas 0 addr l ≡ o
      → is_all_erased (need_of_area addr l o) ≡ true
      → Erased areas addr l
  unfolding need_of_area
  area-Erased none lies_in e = absurd (true≢false (sym e))
  area-Erased (some (i, a)) lies_in e = elim (Bool-cases (is_flash a.type)) [
    | inl is_it ↦ sectors-Erased i a lies_in (flash-need i a is_it e)
    | inr is_not ↦ absurd (true≢false (sym (ram-need i a is_not e)))
  ]
    where
      flash-need :
          (j : ℕ) (b : MemoryArea)
          → is_flash b.type ≡ true
          → is_all_erased
              (if is_flash b.type then need_of_sectors j b (map_sectors b addr l) else not_flash)
            ≡ true
          → is_all_erased (need_of_sectors j b (map_sectors b addr l)) ≡ true
      flash-need j b is_it h =
          sym (
            ap
              (λ t.
                is_all_erased (if t then need_of_sectors j b (map_sectors b addr l) else not_flash))
              is_it)
          ∙ h

      ram-need :
          (j : ℕ) (b : MemoryArea)
          → is_flash b.type ≡ false
          → is_all_erased
              (if is_flash b.type then need_of_sectors j b (map_sectors b addr l) else not_flash)
            ≡ true
          → false ≡ true
      ram-need j b is_not h =
          sym (
            ap
              (λ t.
                is_all_erased (if t then need_of_sectors j b (map_sectors b addr l) else not_flash))
              is_not)
          ∙ h

-- A chunk that is not empty and that `stm32_usart_must_erase` takes for erased, where the sectors of the
-- area it lies in make up that area below 2^32 and the mask has a bit for the sector of the chunk's last
-- byte, lies only in sectors that are marked as erased, each by a bit of the mask.
pub erase_need-Erased :
    (areas : List MemoryArea) (addr l : ℕ)
    → 0 < l
    → ((i : ℕ) (a : MemoryArea) → find_area areas 0 addr l ≡ some (i, a) → IsMapped addr l a)
    → erase_need areas addr l ≡ all_erased
    → Erased areas addr l
unfolding erase_need
erase_need-Erased areas addr l some_bytes mapped e =
    area-Erased areas addr l some_bytes mapped (find_area areas 0 addr l) refl (ap is_all_erased e)

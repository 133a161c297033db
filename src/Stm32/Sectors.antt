-- ===== src/Stm32/Sectors.antt =====
-- `map_chunk_address` finds the sectors of a flash area that a chunk lies in, all of them and no other.
use libdfu.Base.{
  ℕ, suc, ◌+◌, ◌-◌, ◌^◌, ◌≤◌, ◌<◌, ◌≡◌, ap, ◌∙◌, true, false, ◌&&◌, Option, none, some, List, [],
  ◌∷◌, ltb, leb, length, take, arith, Bool-cases, inl, inr,
}
use libdfu.Base.Word.{add32, sub32}
use libdfu.Stm32.{MemoryArea, sectors_next, sectors_from, map_sectors}

abbrev pub total : List ℕ → ℕ
total [] = 0
total (s ∷ ss) = s + total ss

-- The address lies in sector `k` of those that begin at `a`.
pub record Inside (ss : List ℕ) (a addr k : ℕ) : Type 0 where
  pub is_sector : k < length ss
  pub from_start : a + total (take k ss) ≤ addr
  pub before_end : addr < a + total (take (suc k) ss)

Inside-first :
    (s : ℕ) (ss : List ℕ) (a addr : ℕ) → a ≤ addr → addr < a + s → Inside (s ∷ ss) a addr 0
Inside-first s ss a addr le lt = record {
  is_sector = omega arith;
  from_start = omega arith;
  before_end = omega arith;
}

Inside-next :
    (s : ℕ) (ss : List ℕ) (a addr k : ℕ) → Inside ss (a + s) addr k → Inside (s ∷ ss) a addr (suc k)
Inside-next s ss a addr k h = record {
  is_sector = omega (arith, h.is_sector);
  from_start = omega (arith, h.from_start);
  before_end = omega (arith, h.before_end);
}

-- The search for the end, with `n` sectors so far.
record EndFound (addr end : ℕ) (ss : List ℕ) (i a st n : ℕ) : Type 0 where
  more : ℕ
  last : Inside ss a end more
  found : sectors_from addr end ss i a (some (st, n)) ≡ some (st, n + more)

EndFound-next :
    (addr end s : ℕ) (ss : List ℕ) (i a st n : ℕ)
    → ltb end (a + s) ≡ false
    → add32 a s ≡ a + s
    → EndFound addr end ss (i + 1) (a + s) st (n + 1)
    → EndFound addr end (s ∷ ss) i a st n
unfolding sectors_from sectors_next
EndFound-next addr end s ss i a st n beyond next r = record {
  more = suc r.more;
  last = Inside-next s ss a end r.more r.last;
  found =
      let sum : n + 1 + r.more ≡ n + suc r.more = omega arith in
      rw (beyond, next) (r.found ∙ ap (λ m. some (st, m)) sum);
}

find_end :
    (addr end : ℕ) (ss : List ℕ) (i a st n : ℕ)
    → a ≤ end
    → end < a + total ss
    → a + total ss < 2 ^ 32
    → EndFound addr end ss i a st n
unfolding sectors_from sectors_next
find_end addr end [] i a st n le lt small = absurd (omega arith)
find_end addr end (s ∷ ss) i a st n le lt small = elim (Bool-cases (ltb end (a + s))) [
  | inl here ↦ record {
    more = 0;
    last = Inside-first s ss a end le (ground (arith, here));
    found = let none_more : n ≡ n + 0 = omega arith in rw here (ap (λ m. some (st, m)) none_more);
  }
  | inr beyond ↦ EndFound-next addr end s ss i a st n beyond (omega arith) (
      find_end addr end ss (i + 1) (a + s) st (n + 1) (ground (arith, beyond)) (omega arith)
        (omega arith))
]

-- The first and the last sector of the chunk from `addr` to `end`.
pub record Found (addr end : ℕ) (ss : List ℕ) (i a : ℕ) (r : Option (ℕ × ℕ)) : Type 0 where
  pub first : ℕ
  pub more : ℕ
  pub starts : Inside ss a addr first
  pub ends : Inside ss a end (first + more)
  pub result : r ≡ some (i + first, suc more)

-- The chunk begins in the sector at `a`.
Found-here :
    (addr end s : ℕ) (ss : List ℕ) (i a : ℕ)
    → (leb a addr && ltb addr (a + s)) ≡ true
    → ltb end (a + s) ≡ false
    → add32 a s ≡ a + s
    → EndFound addr end ss (i + 1) (a + s) i 2
    → Found addr end (s ∷ ss) i a (sectors_from addr end (s ∷ ss) i a none)
unfolding sectors_from sectors_next
Found-here addr end s ss i a here beyond next r =
    let some_more : 0 + suc r.more ≡ suc r.more = omega arith in
    let same : i ≡ i + 0 = omega arith in
    let sum : 2 + r.more ≡ suc (suc r.more) = omega arith in
    record {
      first = 0;
      more = suc r.more;
      starts = Inside-first s ss a addr (ground (arith, here)) (ground (arith, here));
      ends = rw some_more (Inside-next s ss a end r.more r.last);
      result =
          rw (here, beyond, next)
            (r.found ∙ ap (λ m. some (i, m)) sum ∙ ap (λ k. some (k, suc (suc r.more))) same);
    }

Found-later :
    (addr end s : ℕ) (ss : List ℕ) (i a : ℕ)
    → (leb a addr && ltb addr (a + s)) ≡ false
    → add32 a s ≡ a + s
    → Found addr end ss (i + 1) (a + s) (sectors_from addr end ss (i + 1) (a + s) none)
    → Found addr end (s ∷ ss) i a (sectors_from addr end (s ∷ ss) i a none)
unfolding sectors_from sectors_next
Found-later addr end s ss i a later next r =
    let sum : i + 1 + r.first ≡ i + suc r.first = omega arith in
    let shift : suc r.first + r.more ≡ suc (r.first + r.more) = omega arith in
    record {
      first = suc r.first;
      more = r.more;
      starts = Inside-next s ss a addr r.first r.starts;
      ends = rw shift (Inside-next s ss a end (r.first + r.more) r.ends);
      result = rw (later, next) (r.result ∙ ap (λ k. some (k, suc r.more)) sum);
    }

find_start :
    (addr end : ℕ) (ss : List ℕ) (i a : ℕ)
    → a ≤ addr
    → addr ≤ end
    → end < a + total ss
    → a + total ss < 2 ^ 32
    → Found addr end ss i a (sectors_from addr end ss i a none)
unfolding sectors_from sectors_next
find_start addr end [] i a le_addr le lt small = absurd (omega arith)
find_start addr end (s ∷ ss) i a le_addr le lt small =
    elim (Bool-cases (leb a addr && ltb addr (a + s))) [
      | inl here ↦ elim (Bool-cases (ltb end (a + s))) [
        | inl whole ↦ record {
          first = 0;
          more = 0;
          starts = Inside-first s ss a addr le_addr (ground (arith, here));
          ends = Inside-first s ss a end (omega arith) (ground (arith, whole));
          result =
              let same : i ≡ i + 0 = omega arith in rw (here, whole) (ap (λ k. some (k, 1)) same);
        }
        | inr beyond ↦ Found-here addr end s ss i a here beyond (omega arith) (
            find_end addr end ss (i + 1) (a + s) i 2 (ground (arith, beyond)) (omega arith)
              (omega arith))
      ]
      | inr later ↦ Found-later addr end s ss i a later (omega arith) (
          find_start addr end ss (i + 1) (a + s) (ground (arith, later)) le (omega arith)
            (omega arith))
    ]

-- For a chunk that is not empty and lies inside the sectors of a flash area below 2^32,
-- `map_chunk_address` finds the sector that holds its first byte and counts the sectors up to the one
-- that holds its last byte; the loop never passes the last sector.
pub map_sectors-Found :
    (area : MemoryArea) (addr size : ℕ)
    → 0 < size
    → area.start ≤ addr
    → addr + size ≤ area.start + total area.sectors
    → area.start + total area.sectors < 2 ^ 32
    → Found addr
        (addr + size - 1)
        area.sectors
        area.sectors_offset
        area.start
        (map_sectors area addr size)
unfolding map_sectors
map_sectors-Found area addr size some_bytes le fits small =
    let end : sub32 (addr + size) 1 ≡ addr + size - 1 = omega arith in
    rw end (
      find_start addr (addr + size - 1) area.sectors area.sectors_offset area.start le (omega arith)
        (omega arith) small)

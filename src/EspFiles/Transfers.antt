-- ===== src/EspFiles/Transfers.antt =====
-- The state after one transfer to or from the SPI flash at an aligned address, and a transfer of a file
-- that stays in its first sector.
use native.Mathlib.Nat.{zero-div}
use libdfu.Base.{
  ℕ, suc, ◌+◌, ◌-◌, ◌/◌, ◌%◌, ◌^◌, ◌≤◌, ◌<◌, ◌≡◌, ◌≢◌, refl, sym, ap, ◌∙◌, Bool, true, false,
  Option, none, some, ◌==◌, leb, min, arith, Bool-cases, inl, inr,
}
use libdfu.Base.Word.{add32, sub32}
use libdfu.EspFlash.{Bytes, Ram, SpiFlash, copy, from, flash_read}
use libdfu.EspFlash.Read.{copy-within}
use libdfu.EspFlash.Write.{flash_write}
use libdfu.EspFlash.Write.Aligned.{IsFlash, merged}
use libdfu.EspFlash.Write.Loop.{Wrote, flash_write-Wrote}
use libdfu.EspFlash.Read.Slow.{Ended, flash_read-Ended}
use libdfu.EspFiles.{
  Store, flash_index, index_to_addr, read_at, write_at, read_file_header, write_file_header, read32,
  put_device, got_ram,
}
use libdfu.EspFiles.Access.{transfer, wrrd_from}

module _ {S : Type 0} {flash : SpiFlash S} {content : S → Bytes} {merge : ℕ → ℕ → ℕ} {size : ℕ}
    (ok : IsFlash flash content merge size) where
  -- The state that a write leaves, and the memory that a read leaves.
  state_left :
      (s : S) (dst : ℕ) (bytes : Bytes) (n : ℕ) (r : Option (Bool × S))
      → Wrote ok s dst bytes n r
      → (s' : S) × (r ≡ some (true, s'))
        × ((p : ℕ) → content s' p ≡ merged merge (content s) dst bytes n p)
  state_left s dst bytes n none wrote = absurd wrote
  state_left s dst bytes n (some (b, s')) (done, all) = (s', ap (λ x. some (x, s')) done, all)

  memory_left :
      (s : S) (src dst n : ℕ) (m : Ram) (r : Option (Bool × Ram))
      → Ended (content s) src dst n m r
      → (m' : Ram) × (r ≡ some (true, m'))
        × ((p : ℕ) → m'.bytes p ≡ copy m.bytes dst (from (content s) src) n p)
  memory_left s src dst n m none ended = absurd ended
  memory_left s src dst n m (some (b, m')) (done, all) = (m', ap (λ x. some (x, m')) done, all)

  module _ (w : Store S) where
    pub write_at_as :
        (dst src n h : ℕ)
        → dst % 4 ≡ 0
        → dst + n ≤ size
        → dst + 4 ≤ size
        → src + 4 ≤ 2 ^ 32
        → (src % 4 ≢ 0 → n % 512 ≢ 0 → 4 ≤ n % 512)
        → (s' : S) × (write_at flash h w dst src n ≡ some (true, record w { device = s' }))
          × ((p : ℕ)
              → content s' p ≡ merged merge (content w.device) dst (from w.ram.bytes src) n p)
    write_at_as dst src n h al fits below room tail =
        let wrote =
          flash_write-Wrote ok w.device dst src n w.ram.bytes fits room (λ e. al)
            (λ ne. tail (λ z. ne (al ∙ sym z))) below in
        let (s', e, all) =
          state_left w.device dst (from w.ram.bytes src) n
            (flash_write flash w.device dst src n w.ram.bytes) wrote in
        (s', ap (put_device w) e, all)

    pub read_at_as :
        (src dst n h : ℕ)
        → 3 ≤ n
        → src % 4 ≡ 0
        → src + n ≤ size
        → dst + 4 ≤ 2 ^ 32
        → (dst % 4 ≢ 0 → n % 4 ≢ 1)
        → (m' : Ram) × (read_at flash h w src dst n ≡ some (true, record w { ram = m' }))
          × ((p : ℕ) → m'.bytes p ≡ copy w.ram.bytes dst (from (content w.device) src) n p)
    read_at_as src dst n h some_bytes al fits room tail =
        let ended =
          flash_read-Ended flash w.device (content w.device) size (ok.reads w.device) ok.whole
            ok.small src dst n w.ram some_bytes fits room
            (λ ne e. tail (λ z. ne (al ∙ sym z)) (omega (arith, e, al))) in
        let (m', e, all) =
          memory_left w.device src dst n w.ram (flash_read flash w.device src dst n w.ram) ended in
        (m', ap (got_ram w) e, all)

    module _ (s h : ℕ) (al : index_to_addr w (flash_index w s) % 4 ≡ 0)
        (fits : index_to_addr w (flash_index w s) + 76 ≤ size) (h_al : h % 4 ≡ 0)
        (h_room : h + 4 ≤ 2 ^ 32) where
      abbrev a : ℕ
      a = index_to_addr w (flash_index w s)

      below_top : (a == 2 ^ 32 - 1) ≡ false
      below_top = ground (arith, fits, ok.small)

      pub read_file_header_as :
          (m' : Ram) × (read_file_header flash h w s ≡ some (true, record w { ram = m' }))
          × ((p : ℕ) → m'.bytes p ≡ copy w.ram.bytes h (from (content w.device) a) 76 p)
      unfolding read_file_header
      read_file_header_as =
          let (m', e, all) =
            read_at_as a h 76 h (omega arith) al fits h_room (λ ne. absurd (ne h_al)) in
          (m', rw below_top e, all)

      pub write_file_header_as :
          (s' : S) × (write_file_header flash h w s ≡ some (true, record w { device = s' }))
          × ((p : ℕ) → content s' p ≡ merged merge (content w.device) a (from w.ram.bytes h) 76 p)
      unfolding write_file_header
      write_file_header_as =
          let (s', e, all) =
            write_at_as a h 76 h al fits (omega (arith, fits)) h_room (λ ne. absurd (ne h_al)) in
          (s', rw below_top e, all)

-- The first sector of a file, and where it is in the flash.
abbrev pub first_of : {S : Type 0} → Store S → ℕ → ℕ
first_of w f = w.links.next f

abbrev pub addr_of : {S : Type 0} → Store S → ℕ → ℕ
addr_of w f = index_to_addr w (flash_index w (first_of w f))

-- A file with a first sector, erased but for its name, in a flash of `size` bytes.
pub record IsFresh {S : Type 0} (content : S → Bytes) (size : ℕ) (w : Store S) (f : ℕ)
    : Type 0 where
  pub apart : first_of w f ≢ f
  pub unwritten : w.written f ≡ 0
  pub aligned : addr_of w f % 4 ≡ 0
  pub inside : addr_of w f + w.sectsize ≤ size
  pub blank :
      (p : ℕ) → addr_of w f + 68 ≤ p → p < addr_of w f + w.sectsize → content w.device p ≡ 255

-- The size in a header that was read.
pub header_word :
    (m old c : Bytes) (a h : ℕ)
    → ((p : ℕ) → m p ≡ copy old h (from c a) 76 p)
    → read32 m (h + 68) ≡ read32 c (a + 68)
header_word m old c a h header =
    let b0 : m (h + 68) ≡ c (a + 68) =
      byte (h + 68) (a + 68) (omega arith) (omega arith) (omega arith) in
    rw
      (
        b0,
        byte (h + 68 + 1) (a + 68 + 1) (omega arith) (omega arith) (omega arith),
        byte (h + 68 + 2) (a + 68 + 2) (omega arith) (omega arith) (omega arith),
        byte (h + 68 + 3) (a + 68 + 3) (omega arith) (omega arith) (omega arith),
      )
      refl
  where
    byte : (p q : ℕ) → h ≤ p → p < h + 76 → a + (p - h) ≡ q → m p ≡ c q
    byte p q le lt at = header p ∙ copy-within old (from c a) h 76 p le lt ∙ ap c at

-- A transfer that fits into the first sector of a file takes one round, as what it comes to decides.
abbrev one_round : {S : Type 0} → ℕ → Bool → Store S → Option ℕ × Store S
one_round sz true w = (some sz, w)
one_round sz false w = (none, w)

pub wrrd_one :
    {S : Type 0} (flash : SpiFlash S) (h n f s wrbuf rdbuf sz : ℕ) (ok : Bool) (w w' : Store S)
    → (s == f) ≡ false
    → sz + 76 ≤ w.sectsize
    → w.sectsize < 2 ^ 32
    → transfer flash h wrbuf rdbuf 0 (flash_index w s) 0 sz w ≡ some (ok, w')
    → wrrd_from flash h (suc n) f 0 wrbuf rdbuf sz s 0 0 0 w ≡ some (one_round sz ok w')
unfolding wrrd_from
wrrd_one flash h n f s wrbuf rdbuf sz ok w w' apart fits small moves =
    let whole : min (sub32 sz 0) (sub32 (sub32 w.sectsize 76) 0) ≡ sz = omega arith in
    let end : add32 0 sz ≡ sz = omega arith in
    let start : 0 / sub32 w.sectsize 76 ≡ 0 = zero-div (sub32 w.sectsize 76) in
    let all : leb sz sz ≡ true = ground arith in
    elim (Bool-cases ok) [
      | inl done ↦ rw (apart, start, whole, moves, done, end, all) refl
      | inr failed ↦ rw (apart, start, whole, moves, failed) refl
    ]

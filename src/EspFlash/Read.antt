-- ===== src/EspFlash/Read.antt =====
-- `_flash_read` of src/file-container-esp8266.c on a flash that reads whole double words.
pub mod Aligned
pub mod Slow
use libdfu.Base.{
  ℕ, ◌+◌, ◌-◌, ◌%◌, ◌≤◌, ◌<◌, ◌≡◌, refl, sym, ap, ◌∙◌, Bool, true, false, ◌&&◌, Option, none, some,
  ltb, leb, Bool-cases, inl, inr, if◌then◌else◌, arith,
}
use libdfu.EspFlash.{Bytes, Ram, SpiFlash, copy, from}

-- What a read of `n` bytes from address `a` brought.
abbrev pub Got : Bytes → ℕ → ℕ → Option Bytes → Type 0
Got content a n none = ⊥
Got content a n (some bytes) = (i : ℕ) → i < n → bytes i ≡ content (a + i)

-- The flash holds `content` and reads it in double words, below `size`.
abbrev pub Holds : {S : Type 0} → SpiFlash S → S → Bytes → ℕ → Type 0
Holds flash s content size =
    (a n : ℕ) → a % 4 ≡ 0 → n % 4 ≡ 0 → a + n ≤ size → Got content a n (flash.read s a n)

-- The read succeeded, and put `sz` bytes of the flash at `dst` and changed nothing else.
abbrev pub Filled : Bytes → ℕ → ℕ → ℕ → Ram → Bool × Ram → Type 0
Filled content src dst sz m (ok, m') =
    (ok ≡ true) × ((p : ℕ) → m'.bytes p ≡ copy m.bytes dst (from content src) sz p)

pub data Place (p dst n : ℕ) : Type 0 where
  before : p < dst → Place p dst n
  within : dst ≤ p → p < dst + n → Place p dst n
  after : dst + n ≤ p → Place p dst n

pub place_of : (p dst n : ℕ) → Place p dst n
place_of p dst n = elim (Bool-cases (ltb p dst)) [
  | inl low ↦ before (ground (arith, low))
  | inr rest ↦ elim (Bool-cases (ltb p (dst + n))) [
    | inl in_range ↦ within (ground (arith, rest)) (ground (arith, in_range))
    | inr high ↦ after (ground (arith, high))
  ]
]

pub copy-within :
    (mem a : Bytes) (dst n p : ℕ) → dst ≤ p → p < dst + n → copy mem dst a n p ≡ a (p - dst)
copy-within mem a dst n p le lt =
    let test : (leb dst p && ltb p (dst + n)) ≡ true = ground arith in rw test refl

pub copy-before : (mem a : Bytes) (dst n p : ℕ) → p < dst → copy mem dst a n p ≡ mem p
copy-before mem a dst n p lt =
    let test : (leb dst p && ltb p (dst + n)) ≡ false = ground arith in rw test refl

pub copy-after : (mem a : Bytes) (dst n p : ℕ) → dst + n ≤ p → copy mem dst a n p ≡ mem p
copy-after mem a dst n p le =
    let test : (leb dst p && ltb p (dst + n)) ≡ false = ground arith in rw test refl

-- A copy of nothing.
pub copy-zero : (mem a : Bytes) (dst p : ℕ) → copy mem dst a 0 p ≡ mem p
copy-zero mem a dst p = elim (place_of p dst 0) [
  | before lt ↦ copy-before mem a dst 0 p lt
  | within le lt ↦ absurd (omega arith)
  | after le ↦ copy-after mem a dst 0 p le
]

pub copy-same :
    (mem a f : Bytes) (dst n p : ℕ)
    → ((i : ℕ) → i < n → a i ≡ f i)
    → copy mem dst a n p ≡ copy mem dst f n p
copy-same mem a f dst n p same = elim (place_of p dst n) [
  | before lt ↦ copy-before mem a dst n p lt ∙ sym (copy-before mem f dst n p lt)
  | within le lt ↦
      copy-within mem a dst n p le lt
      ∙ same (p - dst) (omega arith)
      ∙ sym (copy-within mem f dst n p le lt)
  | after le ↦ copy-after mem a dst n p le ∙ sym (copy-after mem f dst n p le)
]

-- A copy over memory that is the same.
pub copy-base :
    (mem mem' a : Bytes) (dst n p : ℕ) → mem p ≡ mem' p → copy mem dst a n p ≡ copy mem' dst a n p
copy-base mem mem' a dst n p e = ap (λ x. if leb dst p && ltb p (dst + n) then a (p - dst) else x) e

-- A copy that follows another, in memory and in what is copied.
pub copy-next :
    (mem b f : Bytes) (dst n k p : ℕ)
    → ((i : ℕ) → i < k → b i ≡ f (n + i))
    → copy (copy mem dst f n) (dst + n) b k p ≡ copy mem dst f (n + k) p
copy-next mem b f dst n k p same = elim (place_of p (dst + n) k) [
  | after le ↦
      copy-after (copy mem dst f n) b (dst + n) k p le
      ∙ copy-after mem f dst n p (omega arith)
      ∙ sym (copy-after mem f dst (n + k) p (omega arith))
  | within le lt ↦
      let index : n + (p - (dst + n)) ≡ p - dst = omega arith in
      copy-within (copy mem dst f n) b (dst + n) k p le lt
      ∙ same (p - (dst + n)) (omega arith)
      ∙ ap f index
      ∙ sym (copy-within mem f dst (n + k) p (omega arith) (omega arith))
  | before lt ↦ copy-before (copy mem dst f n) b (dst + n) k p lt ∙ shorter lt
]
  where
    shorter : p < dst + n → copy mem dst f n p ≡ copy mem dst f (n + k) p
    shorter lt = elim (place_of p dst n) [
      | before low ↦ copy-before mem f dst n p low ∙ sym (copy-before mem f dst (n + k) p low)
      | within le high ↦
          copy-within mem f dst n p le high ∙ sym (copy-within mem f dst (n + k) p le (omega arith))
      | after le ↦ absurd (omega arith)
    ]

-- A copy to just before another.
pub copy-prior :
    (mem a b f : Bytes) (dst n k p : ℕ)
    → ((i : ℕ) → i < n → a i ≡ f (k + i))
    → ((i : ℕ) → i < k → b i ≡ f i)
    → copy (copy mem (dst + k) a n) dst b k p ≡ copy mem dst f (k + n) p
copy-prior mem a b f dst n k p later first = elim (place_of p dst k) [
  | before lt ↦
      copy-before (copy mem (dst + k) a n) b dst k p lt
      ∙ copy-before mem a (dst + k) n p (omega arith)
      ∙ sym (copy-before mem f dst (k + n) p lt)
  | within le lt ↦
      copy-within (copy mem (dst + k) a n) b dst k p le lt
      ∙ first (p - dst) (omega arith)
      ∙ sym (copy-within mem f dst (k + n) p le (omega arith))
  | after le ↦ copy-after (copy mem (dst + k) a n) b dst k p le ∙ behind le
]
  where
    behind : dst + k ≤ p → copy mem (dst + k) a n p ≡ copy mem dst f (k + n) p
    behind le = elim (place_of p (dst + k) n) [
      | before lt ↦ absurd (omega arith)
      | within low lt ↦
          let index : k + (p - (dst + k)) ≡ p - dst = omega arith in
          copy-within mem a (dst + k) n p low lt
          ∙ later (p - (dst + k)) (omega arith)
          ∙ ap f index
          ∙ sym (copy-within mem f dst (k + n) p (omega arith) (omega arith))
      | after high ↦
          copy-after mem a (dst + k) n p high ∙ sym (copy-after mem f dst (k + n) p (omega arith))
    ]

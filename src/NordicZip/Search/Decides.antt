-- ===== src/NordicZip/Search/Decides.antt =====
-- What `_search_signature` finds in the receive buffer.
use mathlib.Core.Option.{some-injective, some-ne-none}
use libdfu.Base.{
  ℕ, zero, suc, ◌+◌, ◌%◌, ◌≤◌, ◌<◌, ◌≡◌, ◌≢◌, refl, sym, ap, ◌∙◌, Option, none, some, ◌==◌, arith,
  Bool-cases, inl, inr,
}
use libdfu.BinaryFile.{BinaryFile, bf_count}
use libdfu.Append.Copy.{IsReceiving}
use libdfu.Ihex.{next}
use libdfu.Ihex.Reads.{far, far-tail, far-step, go_on-mod}
use libdfu.NordicZip.{HeaderType, local_header, central_header, end_central_header, byte_at}
use libdfu.NordicZip.Search.{
  Searched, not_enough, found, type_of, by_third, search, search_signature,
}

-- The last two bytes of the signature of each header, after `P` and `K`: those of APPNOTE.TXT.
abbrev pub third_of : HeaderType → ℕ
third_of local_header = 3
third_of central_header = 1
third_of end_central_header = 5

abbrev pub fourth_of : HeaderType → ℕ
fourth_of local_header = 4
fourth_of central_header = 2
fourth_of end_central_header = 6

type_of-third_of : (t : HeaderType) → type_of (third_of t) ≡ some t
type_of-third_of local_header = refl
type_of-third_of central_header = refl
type_of-third_of end_central_header = refl

third_add_one : (t : HeaderType) → third_of t + 1 ≡ fourth_of t
third_add_one local_header = refl
third_add_one central_header = refl
third_add_one end_central_header = refl

third_of-small : (t : HeaderType) → third_of t < 80
third_of-small local_header = omega arith
third_of-small central_header = omega arith
third_of-small end_central_header = omega arith

type_of-third : (b : ℕ) (t : HeaderType) → type_of b ≡ some t → b ≡ third_of t
type_of-third b t e = elim (Bool-cases (b == 1)) [
  | inl one ↦
      let same : central_header ≡ t = some-injective _ _ (rw one at e) in
      let is : b ≡ 1 = ground (arith, one) in is ∙ ap third_of same
  | inr not1 ↦ elim (Bool-cases (b == 3)) [
    | inl three ↦
        let same : local_header ≡ t = some-injective _ _ (rw (not1, three) at e) in
        let is : b ≡ 3 = ground (arith, three) in is ∙ ap third_of same
    | inr not3 ↦ elim (Bool-cases (b == 5)) [
      | inl five ↦
          let same : end_central_header ≡ t = some-injective _ _ (rw (not1, not3, five) at e) in
          let is : b ≡ 5 = ground (arith, five) in is ∙ ap third_of same
      | inr not5 ↦ absurd (some-ne-none t (sym (rw (not1, not3, not5) at e)))
    ]
  ]
]

-- The four bytes of the signature of a header of type `t` are in the buffer, from index `s` on.
pub record IsSignature (bf : BinaryFile) (s : ℕ) (t : HeaderType) : Type 0 where
  pub first_in : s ≢ bf.head
  pub second_in : next bf s ≢ bf.head
  pub third_in : next bf (next bf s) ≢ bf.head
  pub fourth_in : next bf (next bf (next bf s)) ≢ bf.head
  pub first : byte_at bf s ≡ 80
  pub second : byte_at bf (next bf s) ≡ 75
  pub third : byte_at bf (next bf (next bf s)) ≡ third_of t
  pub fourth : byte_at bf (next bf (next bf (next bf s))) ≡ fourth_of t

-- Index `s` is met before the head, or at it, on the way from index `i`.
pub data Ahead (bf : BinaryFile) : ℕ → ℕ → Type 0 where
  here : {i : ℕ} → Ahead bf i i
  later : {i s : ℕ} → i ≢ bf.head → Ahead bf (next bf i) s → Ahead bf i s

-- No signature begins at an index, or at none on the way.
abbrev Bare : BinaryFile → ℕ → Type 0
Bare bf i = (t : HeaderType) → IsSignature bf i t → ⊥

abbrev pub NoneAhead : BinaryFile → ℕ → Type 0
NoneAhead bf i = (s : ℕ) (t : HeaderType) → Ahead bf i s → IsSignature bf s t → ⊥

-- The search from an index, with `c` bytes consumed before it, has ended: there is no signature on the
-- way, or there is one, and the bytes up to its end are counted among those consumed.
abbrev pub Decided : BinaryFile → ℕ → ℕ → Option Searched → Type 0
Decided bf i c none = ⊥
Decided bf i c (some not_enough) = NoneAhead bf i
Decided bf i c (some (found consumed s t)) =
    IsSignature bf s t × Ahead bf i s × (c + far bf i + 4 ≤ consumed + far bf s)

module _ (bf : BinaryFile) where
  none-head : (i : ℕ) → i ≡ bf.head → NoneAhead bf i
  none-head i at_end s t here sig = sig.first_in at_end
  none-head i at_end s t (later ne rest) sig = ne at_end

  none-next : (i : ℕ) → Bare bf i → NoneAhead bf (next bf i) → NoneAhead bf i
  none-next i bare rest s t here sig = bare t sig
  none-next i bare rest s t (later ne way) sig = rest s t way sig

  not_first : (i : ℕ) → byte_at bf i ≢ 80 → Bare bf i
  not_first i ne t sig = ne sig.first

  third_small : (b : ℕ) (t : HeaderType) → type_of b ≡ some t → b ≢ 80
  third_small b t e at = omega (arith, type_of-third b t e, third_of-small t)

  fourth_next :
      (i : ℕ) (t : HeaderType)
      → IsSignature bf i t
      → byte_at bf (next bf (next bf (next bf i))) ≡ byte_at bf (next bf (next bf i)) + 1
  fourth_next i t sig = omega (arith, sig.third, sig.fourth, third_add_one t)

  module _ (v : IsReceiving bf) where
    next_mod : (i : ℕ) → next bf i ≡ (i + 1) % 2048
    next_mod i = go_on-mod bf i 1 v

    next_nearer : (i : ℕ) → i < 2048 → i ≢ bf.head → far bf (next bf i) + 1 ≡ far bf i
    next_nearer i lt ne =
        let some_left : 1 ≤ far bf i = ground (arith, v.head_in, ne) in
        let step = ap (far bf) (next_mod i) ∙ far-step bf i 1 v lt some_left in
        omega (arith, step, some_left)

    next_below : (i : ℕ) → next bf i < 2048
    next_below i = omega (arith, next_mod i)

    go_back :
        (i c : ℕ) (r : Option Searched)
        → i < 2048
        → i ≢ bf.head
        → Bare bf i
        → Decided bf (next bf i) (c + 1) r
        → Decided bf i c r
    go_back i c none lt ne bare d = absurd d
    go_back i c (some not_enough) lt ne bare d = none-next i bare d
    go_back i c (some (found consumed s t)) lt ne bare (sig, way, counted) =
        (sig, later ne way, omega (arith, counted, next_nearer i lt ne))

    -- A search that counted more bytes before it.
    fewer : (i c more : ℕ) (r : Option Searched) → c ≤ more → Decided bf i more r → Decided bf i c r
    fewer i c more none le d = d
    fewer i c more (some not_enough) le d = d
    fewer i c more (some (found consumed s t)) le (sig, way, counted) =
        (sig, way, omega (arith, counted, le))

    -- From the third byte on, where the first two are those of a signature.
    by_third-Decided :
        (i consumed : ℕ) (third last : Option Searched) (o : Option HeaderType)
        → type_of (byte_at bf (next bf (next bf i))) ≡ o
        → i < 2048
        → i ≢ bf.head
        → next bf i ≢ bf.head
        → next bf (next bf i) ≢ bf.head
        → byte_at bf i ≡ 80
        → byte_at bf (next bf i) ≡ 75
        → Decided bf (next bf (next bf i)) (consumed + 3) third
        → (next bf (next bf (next bf i)) ≢ bf.head
            → Decided bf (next bf (next bf (next bf i))) (consumed + 4) last)
        → Decided bf i consumed (by_third bf i (next bf (next bf i)) consumed third last o)
    unfolding by_third
    by_third-Decided i consumed third last none e lt in0 in1 in2 b0 b1 at2 at3 =
        let k_first : byte_at bf (next bf i) ≢ 80 = omega (arith, b1) in
        go_back i consumed third lt in0
          (λ t sig. some-ne-none t (sym (type_of-third_of t) ∙ ap type_of (sym sig.third) ∙ e))
          (go_back (next bf i) (consumed + 1) third (next_below i) in1
            (not_first (next bf i) k_first)
            (fewer (next bf (next bf i)) (consumed + 1 + 1) (consumed + 3) third (omega arith) at2))
    by_third-Decided i consumed third last (some t) e lt in0 in1 in2 b0 b1 at2 at3 =
        let i1 = next bf i in
        let i2 = next bf i1 in
        let i3 = next bf i2 in
        let bare1 : Bare bf i1 = not_first i1 (omega (arith, b1)) in
        let bare2 : Bare bf i2 = not_first i2 (third_small (byte_at bf i2) t e) in
        elim (Bool-cases (i3 == bf.head)) [
          | inl end ↦
              let at_end : i3 ≡ bf.head = ground (arith, end) in
              rw end (
                none-next i (λ t' sig. sig.fourth_in at_end)
                  (none-next i1 bare1 (none-next i2 bare2 (none-head i3 at_end))))
          | inr on ↦
              let in3 : i3 ≢ bf.head = ground (arith, on) in
              elim (Bool-cases (byte_at bf i3 == byte_at bf i2 + 1)) [
                | inl same ↦
                    let b3 : byte_at bf i3 ≡ byte_at bf i2 + 1 = ground (arith, same) in
                    rw (on, same)
                      (
                        record {
                          first_in = in0;
                          second_in = in1;
                          third_in = in2;
                          fourth_in = in3;
                          first = b0;
                          second = b1;
                          third = type_of-third (byte_at bf i2) t e;
                          fourth =
                              omega (arith, b3, type_of-third (byte_at bf i2) t e, third_add_one t);
                        },
                        here,
                        omega arith,
                      )
                | inr other ↦
                    let b3 : byte_at bf i3 ≢ byte_at bf i2 + 1 = ground (arith, other) in
                    rw (on, other)
                      (go_back i consumed last lt in0 (λ t' sig. b3 (fourth_next i t' sig))
                        (go_back i1 (consumed + 1) last (next_below i) in1 bare1 (
                          go_back i2 (consumed + 1 + 1) last (next_below i1) in2 bare2 (
                            fewer i3 (consumed + 1 + 1 + 1) (consumed + 4) last (omega arith)
                              (at3 in3)))))
              ]
        ]

    search-Decided :
        (n i consumed : ℕ)
        → i < 2048
        → far bf i < n
        → Decided bf i consumed (search n bf i consumed)
    unfolding search
    search-Decided zero i consumed lt enough = absurd (omega arith)
    search-Decided (suc n) i consumed lt enough =
        let i1 = next bf i in
        let i2 = next bf i1 in
        let i3 = next bf i2 in
        elim (Bool-cases (i == bf.head)) [
          | inl end ↦ elim (Bool-cases (byte_at bf i == 80)) [
            | inl first ↦ rw (first, end) (none-head i (ground (arith, end)))
            | inr other ↦ rw (other, end) (none-head i (ground (arith, end)))
          ]
          | inr on ↦
              let in0 : i ≢ bf.head = ground (arith, on) in
              let near1 = next_nearer i lt in0 in
              elim (Bool-cases (byte_at bf i == 80)) [
                | inr other ↦
                    rw (other, on)
                      (go_back i consumed (search n bf i1 (consumed + 1)) lt in0
                        (not_first i (ground (arith, other)))
                        (search-Decided n i1 (consumed + 1) (next_below i) (omega (arith, near1))))
                | inl first ↦ elim (Bool-cases (i1 == bf.head)) [
                  | inl end1 ↦
                      let at_end : i1 ≡ bf.head = ground (arith, end1) in
                      rw (first, on, end1)
                        (none-next i (λ t sig. sig.second_in at_end) (none-head i1 at_end))
                  | inr on1 ↦
                      let in1 : i1 ≢ bf.head = ground (arith, on1) in
                      let near2 = next_nearer i1 (next_below i) in1 in
                      elim (Bool-cases (byte_at bf i1 == 75)) [
                        | inr other ↦
                            let b1 : byte_at bf i1 ≢ 75 = ground (arith, other) in
                            rw (first, on, on1, other)
                              (go_back i consumed (search n bf i1 (consumed + 2)) lt in0
                                (λ t sig. b1 sig.second)
                                (fewer i1 (consumed + 1) (consumed + 2)
                                  (search n bf i1 (consumed + 2)) (omega arith)
                                  (search-Decided n i1 (consumed + 2) (next_below i)
                                    (omega (arith, near1)))))
                        | inl second ↦
                            let b0 : byte_at bf i ≡ 80 = ground (arith, first) in
                            let b1 : byte_at bf i1 ≡ 75 = ground (arith, second) in
                            elim (Bool-cases (i2 == bf.head)) [
                              | inl end2 ↦
                                  let at_end : i2 ≡ bf.head = ground (arith, end2) in
                                  rw (first, on, on1, second, end2)
                                    (none-next i (λ t sig. sig.third_in at_end)
                                      (none-next i1 (not_first i1 (omega (arith, b1)))
                                        (none-head i2 at_end)))
                              | inr on2 ↦
                                  let in2 : i2 ≢ bf.head = ground (arith, on2) in
                                  let near3 = next_nearer i2 (next_below i1) in2 in
                                  rw (first, on, on1, second, on2)
                                    (by_third-Decided i consumed (search n bf i2 (consumed + 3))
                                      (search n bf i3 (consumed + 4)) (type_of (byte_at bf i2)) refl
                                      lt in0 in1 in2 b0 b1
                                      (search-Decided n i2 (consumed + 3) (next_below i1)
                                        (omega (arith, near1, near2)))
                                      (λ in3.
                                        search-Decided n i3 (consumed + 4) (next_below i2)
                                          (omega (arith, near1, near2, near3))))
                            ]
                      ]
                ]
              ]
        ]

    pub search_signature-Decided : Decided bf bf.tail 0 (search_signature bf)
    unfolding search_signature
    search_signature-Decided =
        search-Decided (bf_count bf + 1) bf.tail 0 v.tail_in (omega (arith, far-tail bf v))

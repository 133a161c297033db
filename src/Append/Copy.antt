-- ===== src/Append/Copy.antt =====
-- What the one or two copies of `_bf_append_data` leave in the receive buffer.
use libdfu.Base.{
  ℕ, ◌+◌, ◌-◌, ◌%◌, ◌≤◌, ◌<◌, ◌≡◌, refl, ap, ◌∙◌, min, true, false, List, ◌++◌, ◌==◌, ltb, leb,
  if◌then◌else◌, ◌==◌, false, true, le→ltb, length, take, drop, take_all, length-take, length-drop,
  take-append-drop, append_assoc, arith,
}
use libdfu.Base.Word.{IsSize, mask-wrap, mask-lt, add32}
use libdfu.BinaryFile.{BinaryFile, buf_size, bf_count, bf_space, bf_space_to_end}
use libdfu.Circular.Laws.{count_lem, count-add-space, space_to_end-eq-min}
use libdfu.Circular.Window.{window, window-blit, length-blit, mod-wrap}
use libdfu.Append.{append_data, append_rest, copy_in, appended}

pub buf_size-IsSize : IsSize buf_size
buf_size-IsSize = record { exponent = 11; small = omega arith; power = refl }

-- What `_bf_init` sets up and every operation on the receive buffer keeps.
pub record IsReceiving (bf : BinaryFile) : Type 0 where
  pub whole : bf.max_size ≡ buf_size
  pub storage : buf_size ≤ length bf.buf
  pub head_in : bf.head < buf_size
  pub tail_in : bf.tail < buf_size

-- The bytes received and not yet decoded, oldest first.
abbrev pub received : BinaryFile → List ℕ
received bf = window 0 buf_size bf.buf bf.tail (bf_count bf)

module _ (bf : BinaryFile) (v : IsReceiving bf) where
  pub count_is :
      bf_count bf ≡ (if leb bf.tail bf.head then bf.head - bf.tail else bf.head + 2048 - bf.tail)
  unfolding bf_count
  count_is = rw v.whole (count_lem buf_size-IsSize v.head_in v.tail_in)

  pub bf_count-add-space : bf_count bf + bf_space bf + 1 ≡ buf_size
  unfolding bf_count bf_space
  bf_count-add-space = rw v.whole (count-add-space buf_size-IsSize v.head_in v.tail_in)

  pub to_end_is : bf_space_to_end bf ≡ min (bf_space bf) (2048 - bf.head)
  unfolding bf_space_to_end bf_space
  to_end_is = rw v.whole (space_to_end-eq-min buf_size-IsSize v.head_in v.tail_in)

-- One copy: `src` fits the free space and the stretch up to the end of the buffer.
module _ (bf : BinaryFile) (v : IsReceiving bf) (src : List ℕ) (fits : length src ≤ bf_space bf)
    (flat : bf.head + length src ≤ 2048) where
  pub head_is : (copy_in bf src).head ≡ (
      if ltb (bf.head + length src) 2048 then bf.head + length src else bf.head + length src - 2048)
  head_is =
      let plain : add32 bf.head (length src) ≡ bf.head + length src = omega (arith, v.head_in) in
      rw plain (mask-wrap (bf.head + length src) buf_size-IsSize (omega (arith, v.head_in)))

  pub copy_in-IsReceiving : IsReceiving (copy_in bf src)
  copy_in-IsReceiving = record {
    whole = v.whole;
    storage = rw length-blit v.storage;
    head_in = mask-lt _ buf_size-IsSize;
    tail_in = v.tail_in;
  }

  pub count-copy_in : bf_count (copy_in bf src) ≡ bf_count bf + length src
  count-copy_in = ground (
    arith,
    v.head_in,
    v.tail_in,
    head_is,
    count_is bf v,
    bf_count-add-space bf v,
    count_is (copy_in bf src) copy_in-IsReceiving,
  )

  pub received-copy_in : received (copy_in bf src) ≡ received bf ++ src
  received-copy_in =
      let at : bf.head ≡ (bf.tail + bf_count bf) % 2048 =
        ground
          (arith, v.head_in, v.tail_in, count_is bf v, mod-wrap (bf.tail + bf_count bf) 2048) in
      ap (window 0 buf_size (copy_in bf src).buf bf.tail) count-copy_in
      ∙ window-blit 0 buf_size src bf.buf bf.tail (bf_count bf) bf.head v.storage v.tail_in
          (omega (arith, bf_count-add-space bf v)) (λ _. at) flat

module _ (bf : BinaryFile) (v : IsReceiving bf) (src : List ℕ)
    (fits : length src ≤ bf_space bf) where
  -- The first of two pieces.
  module _ (wraps : 2048 < bf.head + length src) where
    abbrev pub first : List ℕ
    first = take (2048 - bf.head) src

    abbrev pub second : List ℕ
    second = drop (2048 - bf.head) src

    length-first : length first ≡ 2048 - bf.head
    length-first = omega (arith, length-take (2048 - bf.head) src)

    length-second : length second ≡ bf.head + length src - 2048
    length-second = omega (arith, length-drop (2048 - bf.head) src, v.head_in)

    first_fits : length first ≤ bf_space bf
    first_fits = omega (arith, length-first)

    first_flat : bf.head + length first ≤ 2048
    first_flat = omega (arith, length-first, v.head_in)

    mid : IsReceiving (copy_in bf first)
    mid = copy_in-IsReceiving bf v first first_fits first_flat

    mid_head : (copy_in bf first).head ≡ 0
    mid_head = ground (arith, head_is bf v first first_fits first_flat, length-first, v.head_in)

    space-mid : bf_space (copy_in bf first) ≡ bf_space bf - length first
    space-mid = omega (
      arith,
      bf_count-add-space bf v,
      bf_count-add-space (copy_in bf first) mid,
      count-copy_in bf v first first_fits first_flat,
    )

    second_fits : length second ≤ bf_space (copy_in bf first)
    second_fits = omega (arith, space-mid, length-first, length-second)

    second_flat : (copy_in bf first).head + length second ≤ 2048
    second_flat = omega (arith, mid_head, length-second, bf_count-add-space bf v, v.head_in)

    pub two-IsReceiving : IsReceiving (copy_in (copy_in bf first) second)
    two-IsReceiving = copy_in-IsReceiving (copy_in bf first) mid second second_fits second_flat

    pub received-two : received (copy_in (copy_in bf first) second) ≡ received bf ++ src
    received-two =
        received-copy_in (copy_in bf first) mid second second_fits second_flat
        ∙ ap (λ t. t ++ second) (received-copy_in bf v first first_fits first_flat)
        ∙ append_assoc (received bf) first second
        ∙ ap (λ t. received bf ++ t) (take-append-drop (2048 - bf.head) src)

    append_rest-second :
        append_rest (copy_in bf first) (2048 - bf.head) second
        ≡ (length src, appended (copy_in (copy_in bf first) second) (length src))
    unfolding append_rest
    append_rest-second =
        let whole : min (bf_space (copy_in bf first)) (length second) ≡ length second =
          omega (arith, second_fits) in
        let sum : 2048 - bf.head + length second ≡ length src =
          omega (arith, length-second, v.head_in) in
        rw (whole, sum, take_all (length second) second (omega arith)) refl

    pub append-two :
        append_data bf src ≡ (length src, appended (copy_in (copy_in bf first) second) (length src))
    unfolding append_data
    append-two =
        let some_bytes : (length src == 0) ≡ false = ground (arith, v.head_in) in
        let room : ltb (bf_space bf) (length src) ≡ false = le→ltb _ _ fits in
        let sz : min (bf_space_to_end bf) (length src) ≡ 2048 - bf.head =
          omega (arith, to_end_is bf v) in
        let copied : (2048 - bf.head == 0) ≡ false = ground (arith, v.head_in) in
        let more : (length src - (2048 - bf.head) == 0) ≡ false = ground (arith, v.head_in) in
        rw (some_bytes, room, sz, copied, more) append_rest-second

  module _ (some_bytes : 0 < length src) (flat : bf.head + length src ≤ 2048) where
    pub append-one : append_data bf src ≡ (length src, appended (copy_in bf src) (length src))
    unfolding append_data
    append-one =
        let some' : (length src == 0) ≡ false = ground arith in
        let room : ltb (bf_space bf) (length src) ≡ false = le→ltb _ _ fits in
        let sz : min (bf_space_to_end bf) (length src) ≡ length src =
          omega (arith, to_end_is bf v) in
        let done : (length src - length src == 0) ≡ true = ground arith in
        rw (some', room, sz, some', done, take_all (length src) src (omega arith)) refl

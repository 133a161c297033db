-- ===== src/Ihex/Chunk/Shorter.antt =====
-- Each line that `ihex_decode_chunk` takes shortens the input.
use native.Mathlib.Nat.{mod-add-mod, mod-lt}
use Prim.Native.Nat.{bit_or}
use libdfu.Base.{
  ℕ, zero, suc, ◌+◌, ◌-◌, ◌*◌, ◌%◌, ◌≤◌, ◌<◌, ◌≡◌, refl, sym, ap, ◌∙◌, Option, none, some, not,
  ◌&&◌, ◌==◌, ltb, if◌then◌else◌, arith, Bool-cases, inl, inr,
}
use libdfu.BinaryFile.{BinaryFile, bf_count, bf_dec_space}
use libdfu.Append.{append_data}
use libdfu.Append.Copy.{IsReceiving, count_is}
use libdfu.Circular.Window.{mod-wrap}
use libdfu.Ihex.{Hex, LineData, decode_hex_buf, go_on}
use libdfu.Ihex.Reads.{Kept, Kept-IsReceiving, far, far-tail, far-step, go_on-mod}
use libdfu.Ihex.Peek.{Field, FieldRead, decode_hex_buf-Field, WholeLine}
use libdfu.Ihex.Chunk.{
  Progress, returned, null_pointer, unfinished, Line, more, stop, data_checked, data_decoded,
  decode_data_line, line_decoded, data_line, eof_line, hi_addr,
}

-- Rounds of the loop that a file may still take.
abbrev pub left : BinaryFile → ℕ
left bf = if bf.rx_done then 0 else suc (bf_count bf)

-- The tail has moved `k` bytes towards the head.
record Shorter (bf : BinaryFile) (k : ℕ) (bf' : BinaryFile) : Type 0 where
  valid : IsReceiving bf'
  fewer : bf_count bf' ≡ bf_count bf - k

Shorter-moved :
    (bf bf' : BinaryFile) (k : ℕ)
    → IsReceiving bf
    → Kept bf (record bf' { tail = bf.tail })
    → bf'.tail ≡ (bf.tail + k) % 2048
    → k ≤ bf_count bf
    → Shorter bf k bf'
Shorter-moved bf bf' k v kept at le =
    let w = Kept-IsReceiving kept v in
    let valid : IsReceiving bf' = record {
      whole = w.whole;
      storage = w.storage;
      head_in = w.head_in;
      tail_in = rw at (mod-lt (bf.tail + k) (omega arith));
    } in
    record {
      valid = valid;
      fewer = ground (
        arith,
        count_is bf v,
        count_is bf' valid,
        kept.same_head,
        at,
        v.head_in,
        v.tail_in,
        mod-wrap (bf.tail + k) 2048,
      );
    }

-- A round that leaves something to do has shortened the input, and none runs out of fuel.
abbrev pub Advances : BinaryFile → Line → Type 0
Advances bf (more p) = IsReceiving p.file × (left p.file ≤ bf_count bf)
Advances bf (stop (returned stat p)) = Unit
Advances bf (stop null_pointer) = Unit
Advances bf (stop unfinished) = ⊥

Advances-Shorter :
    (bf : BinaryFile) (k : ℕ) (p : Progress)
    → 0 < k
    → k ≤ bf_count bf
    → Shorter bf k p.file
    → Advances bf (more p)
Advances-Shorter bf k p some_read le s = (s.valid, ground (arith, s.fewer))

-- `_decode_data_line` has read `j` characters, the checksum with them.
record DataRead (bf : BinaryFile) (ld : LineData) (j : ℕ) (bf' : BinaryFile) : Type 0 where
  kept : Kept bf (record bf' { tail = bf.tail })
  most : j ≤ ld.byte_count * 2 + 2
  at : bf'.tail ≡ (bf.tail + j) % 2048

abbrev DataEnds : BinaryFile → LineData → Option ℕ × BinaryFile → Type 0
DataEnds bf ld (none, bf') = Unit
DataEnds bf ld (some zero, bf') = Unit
DataEnds bf ld (some (suc j), bf') = DataRead bf ld (suc j) bf'

data_decoded-DataEnds :
    (bf : BinaryFile) (ld : LineData) (r : Option ℕ × Hex)
    → IsReceiving bf
    → Field (ld.byte_count * 2) bf bf.tail r
    → DataEnds bf ld (data_decoded ld bf.tail r)
unfolding data_decoded data_checked
data_decoded-DataEnds bf ld (none, s) v f = tt
data_decoded-DataEnds bf ld (some zero, s) v f = tt
data_decoded-DataEnds bf ld (some (suc m), s) v f =
    let w = Kept-IsReceiving f.kept v in
    let first : go_on s.file bf.tail (suc m) ≡ (bf.tail + suc m) % 2048 =
      go_on-mod s.file bf.tail (suc m) w in
    let result : DataRead bf ld (suc m + 2) (record s.file {
      tail = go_on s.file (go_on s.file bf.tail (suc m)) 2;
      decoded_head = s.out_index;
    }) =
      record {
        kept = record {
          same_buf = f.kept.same_buf;
          same_head = f.kept.same_head;
          same_tail = refl;
          same_size = f.kept.same_size;
        };
        most = omega (arith, f.most);
        at =
            go_on-mod s.file (go_on s.file bf.tail (suc m)) 2 w
            ∙ ap (λ x. (x + 2) % 2048) first
            ∙ mod-add-mod (bf.tail + suc m) 2048 2
            ∙ ap (λ x. x % 2048) (omega arith);
      } in
    let sum : suc (m + 2) ≡ suc m + 2 = omega arith in data_ends (suc m + 2) _ (omega arith) result
  where
    data_ends :
        (j : ℕ) (bf' : BinaryFile) → 0 < j → DataRead bf ld j bf' → DataEnds bf ld (some j, bf')
    data_ends zero bf' pos d = absurd (omega arith)
    data_ends (suc j) bf' pos d = d

decode_data_line-DataEnds :
    (bf : BinaryFile) (ld : LineData) → IsReceiving bf → DataEnds bf ld (decode_data_line bf ld)
unfolding decode_data_line
decode_data_line-DataEnds bf ld v = elim (Bool-cases (ltb (bf_dec_space bf) ld.byte_count)) [
  | inl full ↦ rw full tt
  | inr room ↦ elim (Bool-cases (ld.data_start_index == bf.tail)) [
    | inl same ↦
        rw (room, same)
          (data_decoded-DataEnds bf ld
            (decode_hex_buf bf bf.tail bf.decoded_head (ld.byte_count * 2)) v
            (decode_hex_buf-Field bf v bf.tail v.tail_in bf.decoded_head (ld.byte_count * 2)))
    | inr other ↦ rw (room, other) tt
  ]
]

module _ (p : Progress) (v : IsReceiving p.file) (stat : ℕ) (ld : LineData)
    (whole : WholeLine p.file stat ld) where
  behind : BinaryFile
  behind = record p.file { tail = go_on p.file p.file.tail stat }

  behind-Shorter : Shorter p.file stat behind
  unfolding behind
  behind-Shorter =
      Shorter-moved p.file behind stat v
        (record { same_buf = refl; same_head = refl; same_tail = refl; same_size = refl })
        (go_on-mod p.file p.file.tail stat v) (omega (arith, whole.all_there))

  line_decoded-Advances :
      (q : Progress) (r : Option ℕ × BinaryFile)
      → DataEnds behind ld r
      → Advances p.file (line_decoded ld q r)
  unfolding line_decoded behind
  line_decoded-Advances q (none, bf) d = tt
  line_decoded-Advances q (some zero, bf) d = tt
  line_decoded-Advances q (some (suc j), bf) d =
      let s = behind-Shorter in
      let fits : suc j ≤ bf_count behind = omega (arith, s.fewer, d.most, whole.all_there) in
      let t = Shorter-moved behind bf (suc j) s.valid d.kept d.at fits in
      (t.valid, ground (arith, t.fewer, s.fewer, whole.some_read, whole.all_there))

  pub data_line-Advances : (o : Option ℕ) → Advances p.file (data_line stat ld p o)
  unfolding data_line behind
  data_line-Advances none = tt
  data_line-Advances (some base) =
      elim (Bool-cases
        (not (p.tot == 0) && not (bit_or (hi_addr base) ld.address == p.next_addr))) [
          | inl jump ↦ rw jump tt
          | inr on ↦ rw on (
              line_decoded-Advances _ (decode_data_line behind ld)
                (decode_data_line-DataEnds behind ld behind-Shorter.valid))
        ]

  pub eof_line-Advances : Advances p.file (eof_line stat p)
  unfolding eof_line append_data behind
  eof_line-Advances =
      let w = behind-Shorter.valid in
      (
        record { whole = w.whole; storage = w.storage; head_in = w.head_in; tail_in = w.tail_in },
        omega arith,
      )

  -- A number behind the header.
  pub field-Shorter :
      (n m : ℕ) (s : Hex) (bf' : BinaryFile)
      → FieldRead n p.file ld.data_start_index m s
      → Kept p.file (record bf' { tail = p.file.tail })
      → bf'.tail ≡ s.index
      → Advances p.file (more (record p { file = bf' }))
  field-Shorter n m s bf' f kept at =
      let there : far p.file ld.data_start_index ≡ bf_count p.file - stat =
        ap (far p.file) whole.at
        ∙ far-step p.file p.file.tail stat v v.tail_in
            (omega (arith, far-tail p.file v, whole.all_there))
        ∙ ap (λ x. x - stat) (sym (far-tail p.file v)) in
      let end : bf'.tail ≡ (p.file.tail + (stat + m)) % 2048 =
        at
        ∙ f.at
        ∙ ap (λ x. (x + m) % 2048) whole.at
        ∙ mod-add-mod (p.file.tail + stat) 2048 m
        ∙ ap (λ x. x % 2048) (omega arith) in
      let fits : stat + m ≤ bf_count p.file = omega (arith, f.within, there, whole.all_there) in
      let s' = Shorter-moved p.file bf' (stat + m) v kept end fits in
      (s'.valid, ground (arith, s'.fewer, whole.some_read))

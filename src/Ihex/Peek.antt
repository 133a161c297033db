-- ===== src/Ihex/Peek.antt =====
-- `_peek_line_header` finds a whole line: what it has read and the rest of the line lie between the
-- tail and the head of the receive buffer.
use native.Mathlib.Nat.{mod-add-mod, mod-lt}
use libdfu.Base.{
  ℕ, zero, suc, ◌+◌, ◌*◌, ◌%◌, ◌≤◌, ◌<◌, ◌≡◌, ap, ◌∙◌, Option, none, some, ◌==◌, ltb, arith,
  Bool-cases, inl, inr, get_or, true, false,
}
use libdfu.BinaryFile.{BinaryFile, bf_count}
use libdfu.Append.Copy.{IsReceiving}
use libdfu.Ihex.{
  Hex, LineData, RecordType, Peeked, malformed, incomplete, header, next, decode_hex,
  decode_hex_buf, hex_loop, hex_result, search, search_line, colon, record_type_of, peek_field,
  peek_end, peek_fields, peek_found, peek_line_header,
}
use libdfu.Ihex.Reads.{Reads, Kept, far, go_on-mod, hex_loop-Reads}

-- A field of `n` digits at most was read, and `m` digits of it.
pub record FieldRead (n : ℕ) (bf : BinaryFile) (index m : ℕ) (s : Hex) : Type 0 where
  pub most : m ≤ n
  pub within : m ≤ far bf index
  pub kept : Kept bf s.file
  pub at : s.index ≡ (index + m) % 2048

abbrev pub Field : ℕ → BinaryFile → ℕ → Option ℕ × Hex → Type 0
Field n bf index (none, s) = Unit
Field n bf index (some zero, s) = Unit
Field n bf index (some (suc m), s) = FieldRead n bf index (suc m) s

hex_result-Field :
    (n : ℕ) (s : Hex) (r : Option ℕ × Hex) → Reads n 0 s r → Field n s.file s.index (hex_result r)
unfolding hex_result
hex_result-Field n s (none, s') m = tt
hex_result-Field n s (some zero, s') m = elim (Bool-cases (s'.index == s'.file.head)) [
  | inl end ↦ rw end tt
  | inr go ↦ rw go tt
]
hex_result-Field n s (some (suc j), s') m = elim (Bool-cases (s'.index == s'.file.head)) [
  | inl end ↦ rw end tt
  | inr go ↦
      let all : m.k ≡ suc j = omega (arith, m.took) in
      rw go (record {
        most = omega (arith, m.most);
        within = omega (arith, m.within);
        kept = m.kept;
        at = rw all at m.at;
      })
]

module _ (bf : BinaryFile) (v : IsReceiving bf) (index : ℕ) (h : index < 2048) where
  pub decode_hex-Field : (nbytes : ℕ) → Field nbytes bf index (decode_hex bf index nbytes)
  unfolding decode_hex
  decode_hex-Field nbytes =
      let s : Hex = record { file = bf; index = index; value = 0; to_buf = false; out_index = 0 } in
      elim (Bool-cases (ltb 8 nbytes)) [
        | inl long ↦ rw long tt
        | inr fits ↦ rw fits (
            hex_result-Field nbytes s (hex_loop nbytes nbytes 0 s)
              (hex_loop-Reads nbytes nbytes 0 s v h))
      ]

  pub decode_hex_buf-Field :
      (out_index len : ℕ) → Field len bf index (decode_hex_buf bf index out_index len)
  unfolding decode_hex_buf
  decode_hex_buf-Field out_index len =
      let s : Hex = record {
        file = bf;
        index = index;
        value = 0;
        to_buf = true;
        out_index = out_index;
      } in
      hex_result-Field len s (hex_loop len len 0 s) (hex_loop-Reads len len 0 s v h)

-- The search ends as far behind where it began as it says.
record Found (bf : BinaryFile) (ret index : ℕ) (r : ℕ × ℕ) : Type 0 where
  on : ℕ
  passed : r.0 ≡ ret + on
  at : r.1 ≡ (index + on) % 2048

search-Found :
    (n : ℕ) (bf : BinaryFile) (ret index : ℕ)
    → IsReceiving bf
    → index < 2048
    → Found bf ret index (search n bf ret index)
unfolding search
search-Found zero bf ret index v h = record { on = 0; passed = omega arith; at = omega arith }
search-Found (suc n) bf ret index v h = elim (Bool-cases (get_or bf.buf index 0 == colon)) [
  | inl here ↦ rw here (record { on = 0; passed = omega arith; at = omega arith })
  | inr past ↦
      let step : next bf index ≡ (index + 1) % 2048 = go_on-mod bf index 1 v in
      let f =
        search-Found n bf (ret + 1) (next bf index) v
          (rw step (mod-lt (index + 1) (omega arith))) in
      rw past (record {
        on = suc f.on;
        passed = omega (arith, f.passed);
        at =
            f.at
            ∙ ap (λ x. (x + f.on) % 2048) step
            ∙ mod-add-mod (index + 1) 2048 f.on
            ∙ ap (λ x. x % 2048) (omega arith);
      })
]

-- A header after `ret` bytes at least, and the line that it announces.
pub record WholeLine (bf : BinaryFile) (stat : ℕ) (ld : LineData) : Type 0 where
  pub some_read : 0 < stat
  pub all_there : ld.byte_count * 2 + stat + 2 ≤ bf_count bf
  pub at : ld.data_start_index ≡ (bf.tail + stat) % 2048

abbrev pub Peeks : BinaryFile → Peeked → Type 0
Peeks bf malformed = Unit
Peeks bf incomplete = Unit
Peeks bf (header stat ld) = WholeLine bf stat ld

peek_end-Peeks :
    (bf : BinaryFile) (ret start index byte_count address : ℕ) (o : Option RecordType)
    → 0 < ret
    → index ≡ (bf.tail + ret) % 2048
    → Peeks bf (peek_end bf ret start index byte_count address o)
unfolding peek_end
peek_end-Peeks bf ret start index byte_count address none some_read at = tt
peek_end-Peeks bf ret start index byte_count address (some rt) some_read at =
    elim (Bool-cases (ltb (bf_count bf) (byte_count * 2 + ret + 2))) [
      | inl short ↦ rw short tt
      | inr whole ↦ rw whole (record { some_read = some_read; all_there = ground arith; at = at })
    ]

module _ (bf : BinaryFile) (v : IsReceiving bf) where
  -- After a field that ends `ret` bytes behind the tail.
  peek_field-Peeks :
      (n found index : ℕ) (r : Option ℕ × Hex) (k : ℕ → Hex → Peeked)
      → index ≡ (bf.tail + found) % 2048
      → Field n bf index r
      → ((m : ℕ) (s : Hex) → s.index ≡ (bf.tail + (found + m)) % 2048 → Peeks bf (k m s))
      → Peeks bf (peek_field r k)
  unfolding peek_field
  peek_field-Peeks n found index (none, s) k at f then_do = tt
  peek_field-Peeks n found index (some zero, s) k at f then_do = tt
  peek_field-Peeks n found index (some (suc m), s) k at f then_do = then_do (suc m) s (
      f.at
      ∙ ap (λ x. (x + suc m) % 2048) at
      ∙ mod-add-mod (bf.tail + found) 2048 (suc m)
      ∙ ap (λ x. x % 2048) (omega arith))

  at-lt : (x index : ℕ) → index ≡ x % 2048 → index < 2048
  at-lt x index e = omega (arith, e, mod-lt x {m = 2048} (omega arith))

  peek_fields-Peeks :
      (found start : ℕ)
      → 0 < found
      → start ≡ (bf.tail + found) % 2048
      → Peeks bf (peek_fields bf found start)
  unfolding peek_fields
  peek_fields-Peeks found start some_read at =
      peek_field-Peeks 2 found start (decode_hex bf start 2) _ at
        (decode_hex-Field bf v start (at-lt _ start at) 2)
        (λ n count at_count.
          peek_field-Peeks 4 (found + n) count.index (decode_hex bf count.index 4) _ at_count
            (decode_hex-Field bf v count.index (at-lt _ count.index at_count) 4)
            (λ m address at_address.
              peek_field-Peeks 2 (found + n + m) address.index (decode_hex bf address.index 2) _
                at_address
                (decode_hex-Field bf v address.index (at-lt _ address.index at_address) 2)
                (λ k rt at_rt.
                  peek_end-Peeks bf (found + n + m + k) start rt.index count.value address.value
                    (record_type_of rt.value) (omega arith) at_rt)))

  found-Peeks : (r : ℕ × ℕ) → (0 < r.0 → r.1 ≡ (bf.tail + r.0) % 2048) → Peeks bf (peek_found bf r)
  unfolding peek_found
  found-Peeks (zero, start) at = tt
  found-Peeks (suc found, start) at =
      peek_fields-Peeks (suc found) start (omega arith) (at (omega arith))

  search_line-at :
      0 < (search_line bf).0 → (search_line bf).1 ≡ (bf.tail + (search_line bf).0) % 2048
  unfolding search_line
  search_line-at some_read =
      let r = search (bf_count bf) bf 0 bf.tail in
      let f = search-Found (bf_count bf) bf 0 bf.tail v v.tail_in in
      elim (Bool-cases (get_or bf.buf r.1 0 == colon)) [
        | inl here ↦ rw here (
            go_on-mod bf r.1 1 v
            ∙ ap (λ x. (x + 1) % 2048) f.at
            ∙ mod-add-mod (bf.tail + f.on) 2048 1
            ∙ ap (λ x. x % 2048) (omega (arith, f.passed)))
        | inr no_line ↦ absurd (let gone : 0 < 0 = rw no_line at some_read in omega (arith, gone))
      ]

  -- `_peek_line_header` gives a header only where the whole line, with its checksum, lies between the
  -- tail and the head of a receive buffer that is well formed. The header has taken at least one byte,
  -- and the data begins where it ends.
  pub peek_line_header-Peeks : Peeks bf (peek_line_header bf)
  unfolding peek_line_header
  peek_line_header-Peeks = found-Peeks (search_line bf) search_line-at

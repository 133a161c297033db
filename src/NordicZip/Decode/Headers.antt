-- ===== src/NordicZip/Decode/Headers.antt =====
-- What the headers of an archive take from the receive buffer.
use libdfu.Base.{
  ℕ, ◌+◌, ◌-◌, ◌%◌, ◌/◌, ◌≤◌, ◌≡◌, ◌≢◌, refl, Bool, true, false, not, ◌||◌, Option, none, some,
  ◌==◌, ltb, min, arith, Bool-cases, inl, inr,
}
use libdfu.BinaryFile.{BinaryFile, bf_count}
use libdfu.Append.{append_data}
use libdfu.Ihex.Reads.{Kept, Kept-refl}
use libdfu.NordicZip.{
  Zip, NzData, FileCalls, LocalHeader, HeaderType, local_header, central_header, end_central_header,
  peek_bytes, local_header_size, local_header_of, max_fname, le16,
}
use libdfu.NordicZip.Receive.{
  peek_from, header_taken, received_in, stored_in, local_header_peeked, decode_local_header,
  get_rx_file, file_at,
}
use libdfu.NordicZip.Images.{Json, parse_manifest}
use libdfu.NordicZip.Send.{finish}
use libdfu.NordicZip.Decode.{
  copy_bytes, decode_central_header, start_sending_images, manifest_parsed,
  decode_end_central_header, decode_header, central_size, end_size,
}

-- The bytes of a header that was looked at are in the receive buffer.
abbrev Small : BinaryFile → Option ℕ × LocalHeader → Type 0
Small bf (none, h) = Unit {0}
Small bf (some stat, h) = stat ≤ bf_count bf

peek_from-Small : (bf : BinaryFile) (start : ℕ) → Small bf (peek_from bf start)
unfolding peek_from
peek_from-Small bf start =
    let r = peek_bytes local_header_size bf start in
    let r' = peek_bytes (min (le16 r.0 26) max_fname) bf r.1 in
    let h = local_header_of r.0 r'.0 in
    let whole = local_header_size + h.file_name_len + h.extra_field_len in
    elim (Bool-cases (r.1 == bf.head)) [
      | inl t ↦ rw t (omega arith)
      | inr t ↦ elim (Bool-cases (ltb max_fname h.file_name_len)) [
        | inl t1 ↦ rw (t, t1) tt
        | inr t1 ↦ elim (Bool-cases (r'.1 == bf.head)) [
          | inl t2 ↦ rw (t, t1, t2) tt
          | inr t2 ↦ elim (Bool-cases (ltb (bf_count bf) whole)) [
            | inl t3 ↦ rw (t, t1, t2, t3) tt
            | inr t3 ↦ rw (t, t1, t2, t3) (ground (arith, t3))
          ]
        ]
      ]
    ]

module _ {E : Type 0} where
  -- A header was decoded: the receive buffer is as it was, what the header takes is in it, and if that is
  -- nothing, nothing has changed.
  abbrev pub Took : Zip E → Option ℕ × Zip E → Type 0
  Took z (none, z') = Kept z.bf z'.bf
  Took z (some stat, z') = Kept z.bf z'.bf × (stat ≤ bf_count z.bf) × (stat ≡ 0 → z' ≡ z)

  module _ (calls : FileCalls E) where
    received-Kept : (z : Zip E) (r : Option ℕ × NzData) → Kept z.bf (received_in calls z r).bf
    received-Kept z (none, p) = Kept-refl z.bf
    received-Kept z (some i, p) =
        stored (record z { priv = record p { curr_rf = i; state = libdfu.NordicZip.storing_file } })
          i (calls.open_file z.rest (file_at p i).name true (file_at p i).size)
      where
        stored : (z' : Zip E) (i : ℕ) (r : Option ℕ × E) → Kept z'.bf (stored_in calls z' i r).bf
        stored z' i (none, e) = Kept-refl z'.bf
        stored z' i (some fd, e) = Kept-refl z'.bf

    header_taken-Took :
        (z : Zip E) (stat : ℕ) (h : LocalHeader)
        → stat ≤ bf_count z.bf
        → stat ≢ 0
        → Took z (header_taken calls z stat h)
    header_taken-Took z stat h le ne = elim (Bool-cases (not (h.compression == 0))) [
      | inl t ↦ rw t (Kept-refl z.bf)
      | inr t ↦ elim (Bool-cases (h.flags / 8 % 2 == 1)) [
        | inl t1 ↦ rw (t, t1) (Kept-refl z.bf)
        | inr t1 ↦ elim (Bool-cases (h.flags % 2 == 1 || (h.flags / 64 % 2 == 1))) [
          | inl t2 ↦ rw (t, t1, t2) (Kept-refl z.bf)
          | inr t2 ↦ elim (Bool-cases (ltb (max_fname - 1) h.file_name_len)) [
            | inl t3 ↦ rw (t, t1, t2, t3) (Kept-refl z.bf, le, λ e. absurd (ne e))
            | inr t3 ↦
                rw (t, t1, t2, t3) (received-Kept z (get_rx_file z.priv h), le, λ e. absurd (ne e))
          ]
        ]
      ]
    ]

    local_header-Took :
        (z : Zip E) (r : Option ℕ × LocalHeader)
        → Small z.bf r
        → Took z (local_header_peeked calls z r)
    unfolding local_header_peeked
    local_header-Took z (none, h) small = Kept-refl z.bf
    local_header-Took z (some stat, h) small = elim (Bool-cases (stat == 0)) [
      | inl nothing ↦ rw nothing (Kept-refl z.bf, omega arith, λ e. refl)
      | inr some_bytes ↦
          rw some_bytes (header_taken-Took z stat h small (ground (arith, some_bytes)))
    ]

    module _ {T : Type 0} (json : Json T) where
      central-Took : (z : Zip E) (start : ℕ) → Took z (decode_central_header calls json z start)
      unfolding decode_central_header
      central-Took z start =
          let r = copy_bytes central_size z.bf start in
          let whole = central_size + le16 r.0 30 in
          elim (Bool-cases (ltb (bf_count z.bf) central_size)) [
            | inl t ↦ rw t (Kept-refl z.bf, omega arith, λ e. refl)
            | inr t ↦ elim (Bool-cases (r.1 == z.bf.head)) [
              | inl t1 ↦ rw (t, t1) (Kept-refl z.bf, omega arith, λ e. refl)
              | inr t1 ↦ elim (Bool-cases (ltb (bf_count z.bf) whole)) [
                | inl t2 ↦ rw (t, t1, t2) (Kept-refl z.bf, omega arith, λ e. refl)
                | inr t2 ↦ rw (t, t1, t2) (Kept-refl z.bf, ground (arith, t2), λ e. refl)
              ]
            ]
          ]

      start-Kept : (z : Zip E) → Kept z.bf (start_sending_images calls json z).bf
      unfolding start_sending_images finish append_data
      start-Kept z = elim (Bool-cases (z.priv.rx_file_count == 0)) [
        | inl t ↦
            rw t (record { same_buf = refl; same_head = refl; same_tail = refl; same_size = refl })
        | inr t ↦ rw t (Kept-refl z.bf)
      ]

      manifest-Took :
          (z : Zip E) (whole : ℕ) (r : Bool × NzData)
          → whole ≤ bf_count z.bf
          → whole ≢ 0
          → Took z (manifest_parsed calls json z whole r)
      manifest-Took z whole (false, p) le ne = Kept-refl z.bf
      manifest-Took z whole (true, p) le ne =
          (start-Kept (record z { priv = p }), le, λ e. absurd (ne e))

      end-Took : (z : Zip E) (start : ℕ) → Took z (decode_end_central_header calls json z start)
      unfolding decode_end_central_header
      end-Took z start =
          let r = copy_bytes end_size z.bf start in
          let whole = end_size + le16 r.0 20 in
          elim (Bool-cases (ltb (bf_count z.bf) end_size)) [
            | inl t ↦ rw t (Kept-refl z.bf, omega arith, λ e. refl)
            | inr t ↦ elim (Bool-cases (ltb (bf_count z.bf) whole)) [
              | inl t1 ↦ rw (t, t1) (Kept-refl z.bf, omega arith, λ e. refl)
              | inr t1 ↦
                  rw (t, t1)
                    (manifest-Took z whole (parse_manifest json z.priv) (ground (arith, t1))
                      (omega arith))
            ]
          ]

      pub decode_header-Took :
          (z : Zip E) (start : ℕ) (t : HeaderType) → Took z (decode_header calls json z start t)
      unfolding decode_local_header
      decode_header-Took z start local_header =
          local_header-Took z (peek_from z.bf start) (peek_from-Small z.bf start)
      decode_header-Took z start central_header = central-Took z start
      decode_header-Took z start end_central_header = end-Took z start

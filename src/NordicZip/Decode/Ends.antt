-- ===== src/NordicZip/Decode/Ends.antt =====
-- The loop of `nz_decode_chunk` ends.
use libdfu.Base.{
  ℕ, zero, suc, ◌+◌, ◌-◌, ◌*◌, ◌%◌, ◌≤◌, ◌<◌, ◌≡◌, refl, sym, ap, ◌∙◌, Bool, true, false, not, ◌&&◌,
  Option, none, some, ◌==◌, ltb, arith, Bool-cases, inl, inr, ◌⊎◌, if◌then◌else◌,
}
use mathlib.Core.Bool.{true≢false}
use libdfu.BinaryFile.{bf_count}
use libdfu.Append.Copy.{IsReceiving}
use libdfu.NordicZip.{
  Zip, NzState, FileCalls, idle, ignoring_file, storing_file, sending_command, sending_data,
  all_done,
}
use libdfu.NordicZip.Search.{Searched, not_enough, found, search_signature}
use libdfu.NordicZip.Search.Decides.{Decided, search_signature-Decided}
use libdfu.NordicZip.Images.{Json}
use libdfu.NordicZip.Decode.{
  decode_header, chunk_sent, realigned, idle_found, idled, do_idle, Step, step_in, decode_step,
  is_error, step_done, nz_decode_chunk,
}
use libdfu.NordicZip.Images.{image_at}
use libdfu.Ihex.{go_on}
use libdfu.NordicZip.Send.{
  realign_decoded_head, send_file, send_file_chunk, is_sending_command, throw_away,
}
use libdfu.NordicZip.Decode.Sends.{Sent, send_file-Sent}
use libdfu.NordicZip.Decode.Headers.{decode_header-Took}
use libdfu.NordicZip.Decode.Takes.{
  rank-le, left, same, same_refl, Fine, header_done-Fine, do_ignore-Fine, do_store-Fine,
}

-- The call has ended, with the receive buffer well formed.
abbrev pub Ended : {E : Type 0} → Option (Option ℕ × ℕ × Zip E) → Type 0
Ended none = ⊥
Ended (some (r, addr, z)) = IsReceiving z.bf

module _ {E T : Type 0} (calls : FileCalls E) (json : Json T) where
  -- The same for a round that may not come to an end.
  abbrev FineStep : Zip E → Option (Step E) → Type 0
  FineStep z none = ⊥
  FineStep z (some s) = Fine z s

  idle_found-FineStep :
      (z : Zip E) (addr : ℕ) (r : Option Searched)
      → IsReceiving z.bf
      → z.priv.state ≡ idle
      → Decided z.bf z.bf.tail 0 r
      → FineStep z (idled addr (idle_found calls json z r))
  unfolding idle_found
  idle_found-FineStep z addr none v at d = absurd d
  idle_found-FineStep z addr (some not_enough) v at d = (v, inl (same_refl z.priv.state))
  idle_found-FineStep z addr (some (found consumed start t)) v at d =
      header_done-Fine z addr (decode_header calls json z start t) v at
        (decode_header-Took calls json z start t)

  chunk-Fine :
      (z z' : Zip E) (r : Option ℕ × ℕ × Zip E)
      → same z'.priv.state z.priv.state ≡ true
      → Sent z' r
      → Fine z (chunk_sent r)
  chunk-Fine z z' (none, addr, z'') as_before sent = (sent, inr (inl refl))
  chunk-Fine z z' (some n, addr, z'') as_before (v, inl some_bytes) =
      let positive : ltb 0 n ≡ true = ground arith in (v, inr (inr (inl positive)))
  chunk-Fine z z' (some n, addr, z'') as_before (v, inr (nothing, unchanged)) =
      (v, inl (ap (λ x. same x.priv.state z.priv.state) unchanged ∙ as_before))

  sending-Fine :
      (z : Zip E) (addr : ℕ)
      → IsReceiving z.bf
      → Fine z (realigned calls json (realign_decoded_head z addr))
  unfolding realign_decoded_head send_file_chunk
  sending-Fine z addr v =
      let off = z.bf.decoded_head % z.bf.write_chunk_size in
      let sz = z.bf.write_chunk_size - off in
      let z' = record z { bf = record z.bf { decoded_head = go_on z.bf z.bf.decoded_head sz } } in
      let v' : IsReceiving z'.bf = record {
        whole = v.whole;
        storage = v.storage;
        head_in = v.head_in;
        tail_in = v.tail_in;
      } in
      let chunk = λ (x : Zip E) (a : ℕ). send_file calls x a (
        if is_sending_command x.priv.state
        then (image_at x.priv x.priv.send_image_index).dat_file
        else (image_at x.priv x.priv.send_image_index).bin_file) in
      elim (Bool-cases (off == 0)) [
        | inl t ↦ rw t (
            chunk-Fine z z (chunk z addr) (same_refl z.priv.state) (
              send_file-Sent calls z addr
                (if is_sending_command z.priv.state
                  then (image_at z.priv z.priv.send_image_index).dat_file
                  else (image_at z.priv z.priv.send_image_index).bin_file)
                v))
        | inr t ↦ elim (Bool-cases (ltb 0 sz)) [
          | inl t1 ↦ rw (t, t1) (v', inr (inr (inl refl)))
          | inr t1 ↦
              rw (t, t1)
                (chunk-Fine z z' (chunk z' throw_away) (same_refl z.priv.state) (
                  send_file-Sent calls z' throw_away
                    (if is_sending_command z.priv.state
                      then (image_at z.priv z.priv.send_image_index).dat_file
                      else (image_at z.priv z.priv.send_image_index).bin_file)
                    v'))
        ]
      ]

  step_in-FineStep :
      (s : NzState) (z : Zip E) (addr : ℕ)
      → IsReceiving z.bf
      → z.priv.state ≡ s
      → FineStep z (step_in calls json s z addr)
  unfolding do_idle
  step_in-FineStep idle z addr v at =
      idle_found-FineStep z addr (search_signature z.bf) v at (search_signature-Decided z.bf v)
  step_in-FineStep storing_file z addr v at = do_store-Fine calls z addr v at
  step_in-FineStep ignoring_file z addr v at = do_ignore-Fine z addr v at
  step_in-FineStep sending_command z addr v at = sending-Fine z addr v
  step_in-FineStep sending_data z addr v at = sending-Fine z addr v
  step_in-FineStep all_done z addr v at = (v, inl (same_refl z.priv.state))

  decide-Ended :
      (a b c : Bool) {P : Type 0} (x y : Option (Option ℕ × ℕ × Zip E))
      → (a ≡ true) ⊎ ((b ≡ true) ⊎ ((c ≡ true) ⊎ P))
      → Ended y
      → (P → Ended x)
      → Ended (if not a && not b && not c then x else y)
  decide-Ended true b c x y why ended next = ended
  decide-Ended false true c x y why ended next = ended
  decide-Ended false false true x y why ended next = ended
  decide-Ended false false false x y (inl e) ended next = absurd (true≢false (sym e))
  decide-Ended false false false x y (inr (inl e)) ended next = absurd (true≢false (sym e))
  decide-Ended false false false x y (inr (inr (inl e))) ended next = absurd (true≢false (sym e))
  decide-Ended false false false x y (inr (inr (inr less))) ended next = next less

  step_done-Ended :
      (n : ℕ) (z : Zip E) (o : Option (Step E))
      → FineStep z o
      → ((z' : Zip E) (addr : ℕ)
          → IsReceiving z'.bf
          → left z' < left z
          → Ended (nz_decode_chunk calls json n z' addr))
      → Ended (step_done calls json (nz_decode_chunk calls json n) z.priv.state o)
  unfolding step_done
  step_done-Ended n z none fine next = absurd fine
  step_done-Ended n z (some (do_break, r, addr, z')) (v, why) next =
      decide-Ended (same z'.priv.state z.priv.state) (is_error r) do_break
        (nz_decode_chunk calls json n z' addr) (some (r, addr, z')) why v (next z' addr v)

  loop-Ended :
      (n : ℕ) (z : Zip E) (addr : ℕ)
      → IsReceiving z.bf
      → left z < n
      → Ended (nz_decode_chunk calls json n z addr)
  unfolding nz_decode_chunk decode_step
  loop-Ended zero z addr v enough = absurd (omega arith)
  loop-Ended (suc n) z addr v enough =
      step_done-Ended n z (step_in calls json z.priv.state z addr)
        (step_in-FineStep z.priv.state z addr v refl)
        (λ z' addr' v' less. loop-Ended n z' addr' v' (omega (arith, less)))

  -- `nz_decode_chunk` on a well-formed receive buffer, over any container of files and any parser of
  -- JSON: its loop ends, in at most two rounds for each byte in the buffer and two more, and leaves the
  -- buffer well formed.
  pub nz_decode_chunk-Ended :
      (n : ℕ) (z : Zip E) (addr : ℕ)
      → IsReceiving z.bf
      → 2 * bf_count z.bf + 2 ≤ n
      → Ended (nz_decode_chunk calls json n z addr)
  nz_decode_chunk-Ended n z addr v enough =
      loop-Ended n z addr v (omega (arith, rank-le z.priv.state))

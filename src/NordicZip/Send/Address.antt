-- ===== src/NordicZip/Send/Address.antt =====
-- The address that a chunk of an image is sent with, and what the target makes of it.
use libdfu.Base.{
  ℕ, ◌*◌, ◌/◌, ◌%◌, ◌^◌, ◌<◌, ◌≡◌, refl, true, false, ◌==◌, if◌then◌else◌, arith, Bool-cases, inl,
  inr,
}
use libdfu.Base.Word.{add32}
use libdfu.NordicZip.{NzState}
use libdfu.NordicZip.Send.{
  command, payload, is_sending_command, state_to_address, image_of, offset_of, type_at,
}

-- For an image of the four and a place in its file below 2^28: from the address of the chunk that begins
-- at that place, `nzbf_get_file_type_and_size` takes the number of the image and which of its two files
-- is sent, and `nzbf_offset` the place.
pub type_at-state_to_address :
    (state : NzState) (image done : ℕ)
    → image < 4
    → done < 2 ^ 28
    → (type_at (add32 (state_to_address state image) done)
        ≡ (if is_sending_command state then command else payload))
      × (image_of (add32 (state_to_address state image) done) ≡ image)
      × (offset_of (add32 (state_to_address state image) done) ≡ done)
unfolding type_at state_to_address
type_at-state_to_address state image done small inside =
    elim (Bool-cases (is_sending_command state)) [
      | inl first ↦
          let bit : (add32 (add32 0 (image * 2 ^ 30 % 2 ^ 32)) done / 2 ^ 29 % 2 == 1) ≡ false =
            ground arith in
          rw (first, bit) (refl, omega arith, omega arith)
      | inr second ↦
          let bit : (add32 (add32 (2 ^ 29) (image * 2 ^ 30 % 2 ^ 32)) done / 2 ^ 29 % 2 == 1)
              ≡ true =
            ground arith in
          rw (second, bit) (refl, omega arith, omega arith)
    ]

-- ===== src/Avr/Isp/Page.antt =====
-- Where the bytes of a chunk end up in the flash of an AVR.
use native.Mathlib.Nat.{mul-add-mod_self_right, mod-eq_of_lt}
use Prim.Native.Nat.{bit_and}
use libdfu.Base.{
  ℕ, ◌+◌, ◌*◌, ◌/◌, ◌%◌, ◌^◌, ◌<◌, ◌≡◌, ap, ◌∙◌, ◌==◌, if◌then◌else◌, get_or, List, arith,
  Bool-cases, inl, inr,
}
use libdfu.Base.Word.{IsSize, mask, mask-mod, sub32, add32}
use libdfu.Avr.{DeviceData}
use libdfu.Avr.Isp.{page_size, word_mask, word_of, high_half, page_word, page_bytes, load_bytes}

-- The word that the second and the third byte of a command name, high byte first.
abbrev word_sent : List ℕ → ℕ
word_sent bytes = get_or bytes 1 0 * 256 + get_or bytes 2 0

-- The byte of the flash that the device writes when byte `k` of a chunk is loaded and the page is written,
-- as the commands that are sent name it: 0x48 loads the high half of a word, 0x40 the low one.
abbrev pub flash_place : DeviceData → ℕ → ℕ → ℕ → ℕ
flash_place dd chunk_addr k byte =
    2 * (word_sent (page_bytes dd chunk_addr) + word_sent (load_bytes dd chunk_addr k byte))
    + (if get_or (load_bytes dd chunk_addr k byte) 0 0 == 72 then 1 else 0)

split_word : (x : ℕ) → x < 2 ^ 16 → x / 256 % 256 * 256 + x % 256 ≡ x
split_word x lt = omega arith

module _ (dd : DeviceData) (half page off : ℕ) (size : page_size dd ≡ half * 2)
    (power : IsSize half) where
  in_page : (x : ℕ) → bit_and x (word_mask dd) ≡ x % half
  unfolding word_mask mask
  in_page x =
      let halves : page_size dd / 2 ≡ half = omega (arith, size) in
      ap (λ n. bit_and x (sub32 n 1)) halves ∙ mask-mod x power

  word_in_page : (w : ℕ) → w < half → (page * half + w) % half ≡ w
  word_in_page w lt = mul-add-mod_self_right page half w ∙ mod-eq_of_lt lt

  -- A chunk that begins at an even place `off` of a page of the flash, whose size is a power of two
  -- and twice `half`: each of its bytes `k` in that page that lies below 2^17, which the 16 bits of a
  -- command for the number of a word reach, is written at its own address.
  pub flash_place-eq :
      (k byte : ℕ)
      → off % 2 ≡ 0
      → off + k < half * 2
      → page * (half * 2) + off + k < 2 ^ 17
      → flash_place dd (page * (half * 2) + off) k byte ≡ page * (half * 2) + off + k
  unfolding word_of page_word high_half
  flash_place-eq k byte even fits small =
      let twice : page * (half * 2) ≡ page * half * 2 = grind arith in
      let start : (page * (half * 2) + off) / 2 ≡ page * half + off / 2 = omega (arith, twice) in
      let place : add32 (page * (half * 2) + off) k / 2 ≡ page * half + (off + k) / 2 =
        omega (arith, twice) in
      let first =
        in_page ((page * (half * 2) + off) / 2)
        ∙ ap (λ x. x % half) start
        ∙ word_in_page (off / 2) (omega arith) in
      let word =
        in_page (add32 (page * (half * 2) + off) k / 2)
        ∙ ap (λ x. x % half) place
        ∙ word_in_page ((off + k) / 2) (omega arith) in
      let page_is : page_word dd (page * (half * 2) + off) ≡ page * half =
        omega (arith, first, start) in
      let page_sent = split_word (page * half) (omega (arith, twice)) in
      let word_is = split_word ((off + k) / 2) (omega (arith, twice)) in
      elim (Bool-cases (k % 2 == 1)) [
        | inl high ↦ rw (page_is, word, high) (ground (arith, twice, high, page_sent, word_is))
        | inr low ↦ rw (page_is, word, low) (ground (arith, twice, low, page_sent, word_is))
      ]

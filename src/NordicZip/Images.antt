-- ===== src/NordicZip/Images.antt =====
-- The firmware images of a manifest, src/binary-format-nordic-zip.c. The parser of JSON is a parameter.
use libdfu.Base.{
  ℕ, zero, suc, ◌+◌, ◌-◌, Bool, true, false, not, Option, none, some, List, [], ◌∷◌, ◌==◌, ltb,
  if◌then◌else◌, get_or, set, length, take,
}
use libdfu.NordicZip.{NzData, FirmwareImage, no_image, begins_with, max_fname}
use libdfu.NordicZip.Receive.{file_at, put_file}

-- The sections that are looked for, in the order of `sections`
pub data Section : Type 0 where
  application : Section
  bootloader : Section
  softdevice : Section
  softdevice_bootloader : Section

abbrev pub sections : List Section
sections = application ∷ bootloader ∷ softdevice ∷ softdevice_bootloader ∷ []

-- The callbacks of the nodes with the text of their token: the callback of the token of a section, of a
-- "bin_file" and of a "dat_file".
pub data Callback : Type 0 where
  on_image : List ℕ → Callback
  on_bin_file : List ℕ → Callback
  on_dat_file : List ℕ → Callback

-- The parser: the tokens of a text, the token of a section among them, and what a scan of the nodes of the
-- section from that token on calls, until a callback fails, with whether the scan succeeds when none
-- does.
pub record Json (T : Type 0) : Type 0 where
  pub parse : List ℕ → Option T
  pub search_token : T → Section → Option ℕ
  pub scan_tokens : T → Section → ℕ → List Callback × Bool

unfoldable pub free_image : List FirmwareImage → ℕ → Option ℕ
free_image [] i = none
free_image (img ∷ images) i =
    let rest = free_image images (i + 1) in if length img.name == 0 then some i else rest

abbrev pub image_at : NzData → ℕ → FirmwareImage
image_at p i = get_or p.images i no_image

abbrev pub put_image : NzData → ℕ → FirmwareImage → NzData
put_image p i img = record p { images = set p.images i img }

-- `new_image`, with `new_firmware_image`
abbrev imaged : NzData → List ℕ → Option ℕ → Bool × NzData
imaged p name none = (false, record p { parser_curr_image = none })
imaged p name (some i) = (
  true,
  record (put_image p i (record (image_at p i) { name = take (max_fname - 1) name })) {
    parser_curr_image = some i;
  },
)

unfoldable pub new_image : NzData → List ℕ → Bool × NzData
new_image p name = imaged p name (free_image p.images 0)

-- `_search_rx_file`, among `n` files from number `i` on
unfoldable pub search_rx_file : ℕ → NzData → List ℕ → ℕ → Option ℕ
search_rx_file zero p name i = none
search_rx_file (suc n) p name i =
    let rest = search_rx_file n p name (i + 1) in
    if begins_with name (file_at p i).name then some i else rest

-- `_get_file` for the image that is parsed, and where its number goes
abbrev with_image : NzData → (FirmwareImage → FirmwareImage) → Option ℕ → NzData
with_image p f none = p
with_image p f (some i) = put_image p i (f (image_at p i))

abbrev got_file : NzData → (ℕ → FirmwareImage → FirmwareImage) → Option ℕ → Bool × NzData
got_file p to none = (
  false,
  record (with_image p (λ img. record img { name = [] }) p.parser_curr_image) {
    parser_curr_image = none;
  },
)
got_file p to (some i) =
    (true, put_file (with_image p (to i) p.parser_curr_image) i (record (file_at p i) { done = 0 }))

unfoldable pub get_file : NzData → List ℕ → (ℕ → FirmwareImage → FirmwareImage) → Bool × NzData
get_file p name to = got_file p to (search_rx_file p.rx_file_count p name 0)

-- The callbacks, of which none stands behind one that fails
unfoldable pub call_back : NzData → Callback → Bool × NzData
call_back p (on_image name) = new_image p name
call_back p (on_bin_file name) = get_file p name (λ i img. record img { bin_file = some i })
call_back p (on_dat_file name) = get_file p name (λ i img. record img { dat_file = some i })

pub call_all : List Callback → Bool → Bool × NzData → Bool × NzData
call_all [] last r = (if r.0 then last else false, r.1)
call_all (c ∷ cs) last (true, p) = call_all cs last (call_back p c)
call_all (c ∷ cs) last (false, p) = (false, p)

module _ {T : Type 0} (json : Json T) where
  -- The loop of `_parse_manifest` over the sections, with the number of images
  pub scanned : (NzData → ℕ → Bool × NzData) → T → Section → NzData → ℕ → Option ℕ → Bool × NzData
  scanned next tokens s p nimages none = next p nimages
  scanned next tokens s p nimages (some t) =
      let (calls, last) = json.scan_tokens tokens s t in
      let (ok, p') = call_all calls last (true, p) in
      let rest = next p' (nimages + 1) in if ok then rest else (false, p')

  unfoldable pub scan_sections : T → List Section → NzData → ℕ → Bool × NzData
  unfolding scanned
  scan_sections tokens [] p nimages = (ltb 0 nimages, p)
  scan_sections tokens (s ∷ rest) p nimages =
      scanned (scan_sections tokens rest) tokens s p nimages (json.search_token tokens s)

  abbrev parsed : NzData → Option T → Bool × NzData
  parsed p none = (false, p)
  parsed p (some tokens) = scan_sections tokens sections p 0

  -- `_parse_manifest`
  unfoldable pub parse_manifest : NzData → Bool × NzData
  parse_manifest p =
      let manifest = file_at p 0 in
      if length manifest.name == 0
      then (false, p)
      else if not manifest.is_local
      then (false, p)
      else parsed p (json.parse (take (manifest.size + 1) p.manifest_buffer))

-- ===== src/NordicZip.antt =====
-- The zip archives of Nordic firmware, src/binary-format-nordic-zip.c: the files received and the
-- images made of them, the search for a signature and the header of a file. Data and headers are
-- kept as bytes, and a name in 32 bytes as the bytes up to its 0.
pub mod Search
pub mod Receive
pub mod Images
pub mod Send
pub mod Decode
use libdfu.Base.{
  ℕ, zero, suc, ◌+◌, ◌*◌, Bool, true, false, Option, none, some, List, [], ◌∷◌, ◌==◌, ltb,
  if◌then◌else◌, get_or, length, take, drop, replicate,
}
use libdfu.BinaryFile.{BinaryFile, bf_count}
use libdfu.Ihex.{next}

-- MAX_FNAME, MAX_NFILES, MAX_NIMAGES and MAX_MANIFEST_SIZE
abbrev pub max_fname : ℕ
max_fname = 32

abbrev pub max_nfiles : ℕ
max_nfiles = 8

abbrev pub max_nimages : ℕ
max_nimages = 4

abbrev pub max_manifest_size : ℕ
max_manifest_size = 600

-- `struct received_file`. A descriptor below 0 is `none`; `is_local` is for a `local_buf` that is not NULL,
-- and `ext` is taken from the name.
pub record ReceivedFile : Type 0 where
  pub name : List ℕ
  pub size : ℕ
  pub done : ℕ
  pub fd : Option ℕ
  pub is_local : Bool
  pub local_buf_offset : ℕ
  pub local_buf_size : ℕ

-- `struct firmware_image`, its files by their number
pub record FirmwareImage : Type 0 where
  pub name : List ℕ
  pub dat_file : Option ℕ
  pub bin_file : Option ℕ

-- `enum zip_header_type` without INVALID
pub data HeaderType : Type 0 where
  local_header : HeaderType
  central_header : HeaderType
  end_central_header : HeaderType

-- `enum nzstate`
pub data NzState : Type 0 where
  idle : NzState
  ignoring_file : NzState
  storing_file : NzState
  sending_command : NzState
  sending_data : NzState
  all_done : NzState

-- `struct nordic_zip_format_data`
pub record NzData : Type 0 where
  pub state : NzState
  pub rx_file_count : ℕ
  pub send_image_index : ℕ
  pub ignored : ℕ
  pub ignored_size : ℕ
  pub curr_rf : ℕ
  pub files : List ReceivedFile
  pub images : List FirmwareImage
  pub parser_curr_image : Option ℕ
  pub manifest_buffer : List ℕ

abbrev pub no_file : ReceivedFile
no_file = record {
  name = [];
  size = 0;
  done = 0;
  fd = some 0;
  is_local = false;
  local_buf_offset = 0;
  local_buf_size = 0;
}

abbrev pub no_image : FirmwareImage
no_image = record { name = []; dat_file = none; bin_file = none }

-- What `_reset` leaves
abbrev pub zeroed : NzData
zeroed = record {
  state = idle;
  rx_file_count = 0;
  send_image_index = 0;
  ignored = 0;
  ignored_size = 0;
  curr_rf = 0;
  files = replicate max_nfiles no_file;
  images = replicate max_nimages no_image;
  parser_curr_image = none;
  manifest_buffer = [];
}

-- The container of files, as far as it is used here.
pub record FileCalls (E : Type 0) : Type 0 where
  pub open_file : E → List ℕ → Bool → ℕ → Option ℕ × E
  pub close : E → Option ℕ → E
  pub read : E → Option ℕ → ℕ → Option (List ℕ) × E
  pub write : E → Option ℕ → List ℕ → Bool × E
  pub remove : E → List ℕ → E

-- The file that is decoded, the data of the format and the container. `fault` is set when a null pointer
-- is followed.
pub record Zip (E : Type 0) : Type 0 where
  pub bf : BinaryFile
  pub priv : NzData
  pub fault : Bool
  pub rest : E

abbrev pub byte_at : BinaryFile → ℕ → ℕ
byte_at bf index = get_or bf.buf index 0

abbrev pub le16 : List ℕ → ℕ → ℕ
le16 h i = get_or h i 0 + get_or h (i + 1) 0 * 256

abbrev pub le32 : List ℕ → ℕ → ℕ
le32 h i = le16 h i + le16 h (i + 2) * 65536

-- `struct zip_local_file_header_base` without what is not looked at, and the name behind it
pub record LocalHeader : Type 0 where
  pub flags : ℕ
  pub compression : ℕ
  pub uncompressed_size : ℕ
  pub file_name_len : ℕ
  pub extra_field_len : ℕ
  pub file_name : List ℕ

abbrev pub local_header_size : ℕ
local_header_size = 30

abbrev pub local_header_of : List ℕ → List ℕ → LocalHeader
local_header_of h name = record {
  flags = le16 h 6;
  compression = le16 h 8;
  uncompressed_size = le32 h 22;
  file_name_len = le16 h 26;
  extra_field_len = le16 h 28;
  file_name = name;
}

-- Up to `n` bytes from an index on, as long as there are some, and the index behind them.
unfoldable pub peek_bytes : ℕ → BinaryFile → ℕ → List ℕ × ℕ
peek_bytes zero bf index = ([], index)
peek_bytes (suc n) bf index =
    let rest = peek_bytes n bf (next bf index) in
    if index == bf.head then ([], index) else (byte_at bf index ∷ rest.0, rest.1)

-- The bytes of a name up to its 0.
unfoldable pub c_string : List ℕ → List ℕ
c_string [] = []
c_string (c ∷ s) = let rest = c_string s in if c == 0 then [] else c ∷ rest

-- `strchr (name, '.')`
unfoldable pub extension : List ℕ → List ℕ
extension [] = []
extension (c ∷ s) = let rest = extension s in if c == 46 then c ∷ s else rest

unfoldable pub same_bytes : List ℕ → List ℕ → Bool
same_bytes [] [] = true
same_bytes [] (b ∷ bs) = false
same_bytes (a ∷ xs) [] = false
same_bytes (a ∷ xs) (b ∷ bs) = let rest = same_bytes xs bs in if a == b then rest else false

-- Whether `memcmp` of a token with the bytes of a name, behind which there are zeros, is 0
unfoldable pub begins_with : List ℕ → List ℕ → Bool
begins_with [] name = true
begins_with (a ∷ xs) [] = let rest = begins_with xs [] in if a == 0 then rest else false
begins_with (a ∷ xs) (b ∷ bs) = let rest = begins_with xs bs in if a == b then rest else false

-- ===== src/BinaryFile.antt =====
-- `struct dfu_binary_file`, include/dfu-internal.h: the receive buffer, the decoded buffer with its
-- head and two tails, and the ring of write chunks. Flags that the source keeps in an `int` and only
-- tests are Booleans. Indices and lengths are never negative in the source, and are numbers here.
use libdfu.Base.{ℕ, Bool, List, Option}
use libdfu.Circular.{count, space, count_to_end, space_to_end}

-- `struct dfu_write_chunk`
pub record WriteChunk : Type 0 where
  pub addr : ℕ
  pub start : ℕ
  pub len : ℕ
  pub pending : Bool
  pub write_pending : Bool

-- CONFIG_MAX_CHUNKS
abbrev pub max_chunks : ℕ
max_chunks = 32

-- CONFIG_BINARY_FILE_BUFSIZE, the size of `bf_buf`
abbrev pub buf_size : ℕ
buf_size = 2048

-- `format_ops` is an index into the table of registered formats. `format_data` points to the data of
-- the format, whose one field is the current address; it is absent for a null pointer. `entry_point`
-- stands for the field of the target, which a format reaches through the `dfu` pointer.
pub record BinaryFile : Type 0 where
  pub buf : List ℕ
  pub decoded_buf : List ℕ
  pub head : ℕ
  pub tail : ℕ
  pub written : Bool
  pub really_written : Bool
  pub max_size : ℕ
  pub rx_done : Bool
  pub flushing : Bool
  pub tot_appended : ℕ
  pub decoded_head : ℕ
  pub decoded_tail : ℕ
  pub write_tail : ℕ
  pub decoded_size : ℕ
  pub decoded_chunk_size : ℕ
  pub write_chunk_size : ℕ
  pub write_chunks : List WriteChunk
  pub write_chunks_head : ℕ
  pub write_chunks_tail : ℕ
  pub format_ops : Option ℕ
  pub format_data : Option ℕ
  pub entry_point : ℕ

unfoldable pub bf_count : BinaryFile → ℕ
bf_count bf = count bf.head bf.tail bf.max_size

unfoldable pub bf_space : BinaryFile → ℕ
bf_space bf = space bf.head bf.tail bf.max_size

unfoldable pub bf_count_to_end : BinaryFile → ℕ
bf_count_to_end bf = count_to_end bf.head bf.tail bf.max_size

unfoldable pub bf_space_to_end : BinaryFile → ℕ
bf_space_to_end bf = space_to_end bf.head bf.tail bf.max_size

unfoldable pub bf_dec_count : BinaryFile → ℕ
bf_dec_count bf = count bf.decoded_head bf.decoded_tail bf.decoded_size

unfoldable pub bf_dec_space : BinaryFile → ℕ
bf_dec_space bf = space bf.decoded_head bf.decoded_tail bf.decoded_size

unfoldable pub bf_dec_space_to_end : BinaryFile → ℕ
bf_dec_space_to_end bf = space_to_end bf.decoded_head bf.decoded_tail bf.decoded_size

unfoldable pub bf_wc_count : BinaryFile → ℕ
bf_wc_count bf = count bf.write_chunks_head bf.write_chunks_tail max_chunks

unfoldable pub bf_wc_space : BinaryFile → ℕ
bf_wc_space bf = space bf.write_chunks_head bf.write_chunks_tail max_chunks

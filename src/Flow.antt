-- ===== src/Flow.antt =====
-- src/binary-file.c: how a file is set up, and how its data moves on. `_bf_init`, `_bf_do_write`,
-- `_bf_do_flush`, `dfu_binary_file_chunk_done`, `dfu_binary_file_on_idle`. The target, the interface
-- and the receive method are the operations of `Ops` on a state `D` of their own.
pub mod Init
pub mod Write
use libdfu.Base.{
  ℕ, suc, zero, ◌+◌, ◌-◌, ◌*◌, ◌/◌, Bool, true, false, not, ◌&&◌, ◌||◌, Option, none, some, List,
  [], ◌∷◌, ◌==◌, ltb, if◌then◌else◌, replicate, take, drop,
}
use libdfu.BinaryFile.{
  BinaryFile, WriteChunk, max_chunks, buf_size, bf_count, bf_dec_space, bf_wc_count,
}
use libdfu.WriteChunks.{
  blank, chunk_at, set_chunk, next_write_chunk, put_write_chunk, enqueue_for_writing,
}
use libdfu.Timeouts.{Timers, update, insert_timeout, remove_timeout}

-- A registered format. `decode_chunk` gives the length, `none` for a negative one, and the address.
pub record Format : Type 0 where
  pub probe : BinaryFile → Bool × BinaryFile
  pub decode_chunk : BinaryFile → Option ℕ × ℕ × BinaryFile

-- A false result is a negative one. An operation that the target
-- does not have is one that returns false and changes nothing.
pub record Ops (D : Type 0) : Type 0 where
  pub busy : D → Bool
  pub ignore_alignment : D → Bool
  pub must_erase : D → ℕ → ℕ → Bool × D
  pub chunk_available : D → ℕ → List ℕ → Bool × D
  pub rx_method_done : D → D
  pub interface_done : D → D
  pub formats : List Format
  pub rx_timeout : ℕ

pub record World (D : Type 0) : Type 0 where
  pub file : BinaryFile
  pub device : D
  pub timers : Timers
  pub now : ℕ

-- The assignments that end `_bf_init`.
pub init_rest : BinaryFile → BinaryFile
init_rest bf = record bf {
  write_chunks_head = 0;
  write_chunks_tail = 0;
  write_chunks = replicate max_chunks blank;
  written = false;
  really_written = false;
  rx_done = false;
  flushing = false;
  format_data = none;
  format_ops = none;
  max_size = buf_size;
  tot_appended = 0;
}

pub init_chunks : BinaryFile → ℕ → Option ℕ → Bool × BinaryFile
init_chunks bf db_size none = (true, init_rest bf)
init_chunks bf db_size (some cs) =
    if ltb db_size cs
    then (false, bf)
    else (true, init_rest (record bf { write_chunk_size = cs; decoded_size = db_size / cs * cs }))

-- The assignments that begin it.
abbrev pub reset_buffers : BinaryFile → List ℕ → List ℕ → ℕ → BinaryFile
reset_buffers bf b db db_size = record bf {
  buf = b;
  head = 0;
  tail = 0;
  decoded_buf = db;
  decoded_head = 0;
  decoded_tail = 0;
  write_tail = 0;
  decoded_size = db_size;
  write_chunk_size = db_size;
}

-- `_bf_init`, where the target, if it has the operation, asks for chunks of `cs` bytes. The timeout
-- that it cancels is not part of the file.
unfoldable pub init_file : BinaryFile → List ℕ → List ℕ → ℕ → Option ℕ → Bool × BinaryFile
unfolding init_rest init_chunks
init_file bf b db db_size cs = init_chunks (reset_buffers bf b db db_size) db_size cs

-- `_bf_find_format` over the registered formats from number `i` on.
pub find_format : List Format → ℕ → BinaryFile → Bool × BinaryFile
find_format [] i bf = (false, bf)
find_format (f ∷ fs) i bf =
    let (accepted, bf') = f.probe bf in
    let rest = find_format fs (i + 1) bf' in
    if accepted then (true, record bf' { format_ops = some i }) else rest

abbrev no_format : Format
no_format = record { probe = λ bf. (false, bf); decode_chunk = λ bf. (none, 0, bf) }

abbrev pub format_at : List Format → ℕ → Format
format_at [] i = no_format
format_at (f ∷ fs) zero = f
format_at (f ∷ fs) (suc i) = format_at fs i

module _ {D : Type 0} (ops : Ops D) where
  -- `_set_rx_timeout`, with the failure to set it only logged
  pub set_rx_timeout : World D → Bool → World D
  set_rx_timeout w moveit =
      let t = if moveit then (remove_timeout w.timers ops.rx_timeout).1 else w.timers in
      let started = record t { values = update t.values ops.rx_timeout 10000 } in
      record w { timers = (insert_timeout started ops.rx_timeout w.now).1 }

  -- A chunk goes to the target, which may refuse it.
  pub send_chunk : World D → ℕ → Bool × World D
  send_chunk w i =
      let wc = chunk_at w.file i in
      let timed = set_rx_timeout w true in
      let (accepted, device) =
        ops.chunk_available w.device wc.addr (take wc.len (drop wc.start w.file.decoded_buf)) in
      let sent = record timed { device = device } in
      if accepted then (true, sent) else (false, record sent { file = put_write_chunk w.file })

  pub write_next : World D → Option (ℕ × BinaryFile) → Bool × World D
  write_next w none = (true, w)
  write_next w (some (i, bf)) =
      let wc = chunk_at bf i in
      let (erase, device) = ops.must_erase w.device wc.addr wc.len in
      let w' = record w { file = bf; device = device } in
      let sent = send_chunk w' i in
      if erase
      then (true, record w' { file = set_chunk bf i (record wc { write_pending = false }) })
      else sent

  -- `_bf_do_write`
  unfoldable pub do_write : World D → Bool × World D
  unfolding write_next send_chunk
  do_write w =
      let next =
        write_next w (next_write_chunk w.file (w.file.written && (bf_wc_count w.file == 1))) in
      if ops.busy w.device then (true, w) else next

  pub flush_enqueued : World D → Option (Bool × BinaryFile) → Bool × World D
  flush_enqueued w none = (false, w)
  flush_enqueued w (some (done, bf)) = (done, record w { file = bf })

  -- What `decode_chunk` gave: an error, nothing yet, or data to enqueue.
  pub flush_decoded : World D → Option ℕ × ℕ × BinaryFile → Bool × World D
  flush_decoded w (none, addr, bf) = (false, record w { file = bf })
  flush_decoded w (some zero, addr, bf) = (true, record w { file = bf })
  flush_decoded w (some (suc n), addr, bf) =
      let larger = if ltb bf.decoded_chunk_size (suc n) then suc n else bf.decoded_chunk_size in
      let w' = record w { file = record bf { decoded_chunk_size = larger } } in
      flush_enqueued w' (enqueue_for_writing (ops.ignore_alignment w.device) w'.file (suc n) addr)

  pub flush_format : World D → Option ℕ → Bool × World D
  flush_format w none = (false, w)
  flush_format w (some i) =
      let decoded = flush_decoded w ((format_at ops.formats i).decode_chunk w.file) in
      if ltb (bf_dec_space w.file) (2 * w.file.decoded_chunk_size) then (true, w) else decoded

  -- `_bf_find_format` where no format is known yet
  pub flush_probed : World D → Option ℕ → Bool × World D
  flush_probed w none =
      let (found, bf) = find_format ops.formats 0 w.file in
      let w' = record w { file = bf } in
      let known = set_rx_timeout w' false in if found then (true, known) else (false, w')
  flush_probed w (some i) = (true, w)

  -- `_bf_do_flush`
  unfoldable pub do_flush : World D → Bool × World D
  unfolding flush_probed flush_format flush_decoded flush_enqueued
  do_flush w =
      let (ready, w') = flush_probed w w.file.format_ops in
      let flushed = flush_format w' w'.file.format_ops in
      if bf_count w.file == 0 then (true, w) else if not ready then (false, w') else flushed

  -- `dfu_binary_file_chunk_done`; `ok` is for a status of 0.
  unfoldable pub chunk_done : World D → Bool → World D
  chunk_done w ok =
      let bf = put_write_chunk w.file in
      let w' = record w { file = bf } in
      let finished = record w' {
        file = record bf { really_written = true };
        timers = (remove_timeout w.timers ops.rx_timeout).1;
        device = ops.interface_done (ops.rx_method_done w.device);
      } in
      if not ok then w else if bf.written && (bf_wc_count bf == 0) then finished else w'

  -- `dfu_binary_file_on_idle` for a file that is there
  unfoldable pub on_idle : World D → Bool × World D
  unfolding do_write do_flush
  on_idle w =
      let (ok, w') = do_write w in
      let flushed = do_flush w' in
      if not ok then (false, w') else if w'.file.flushing then flushed else (true, w')

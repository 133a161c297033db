-- ===== src/NordicZip/Decode/Sends.antt =====
-- What sending a chunk of an image leaves of the receive buffer.
use libdfu.Base.{
  ℕ, ◌+◌, ◌<◌, ◌≡◌, ◌≢◌, refl, Bool, true, false, Option, none, some, List, ◌==◌, leb, min, arith,
  Bool-cases, inl, inr, ◌⊎◌, length, if◌then◌else◌,
}
use libdfu.Base.Word.{add32, sub32}
use libdfu.Circular.Window.{blit}
use libdfu.BinaryFile.{bf_dec_space_to_end}
use libdfu.Append.{append_data}
use libdfu.Append.Copy.{IsReceiving}
use libdfu.Ihex.{go_on}
use libdfu.NordicZip.{
  Zip, NzState, FileCalls, idle, ignoring_file, storing_file, sending_command, sending_data,
  all_done,
}
use libdfu.NordicZip.Receive.{file_at, put_file}
use libdfu.NordicZip.Images.{image_at}
use libdfu.NordicZip.Send.{finish, next_in, sent, read_in, reopened, send_reopened, send_file}

module _ {E : Type 0} where
  next_in-IsReceiving : (z : Zip E) (s : NzState) → IsReceiving z.bf → IsReceiving (next_in z s).bf
  unfolding next_in finish append_data
  next_in-IsReceiving z sending_command v = v
  next_in-IsReceiving z sending_data v =
      elim (Bool-cases (
        length
          (image_at (record z.priv { send_image_index = z.priv.send_image_index + 1 })
            (z.priv.send_image_index + 1)).name
        == 0)) [
          | inl t ↦ rw t (record {
            whole = v.whole;
            storage = v.storage;
            head_in = v.head_in;
            tail_in = v.tail_in;
          })
          | inr t ↦ rw t v
        ]
  next_in-IsReceiving z idle v = v
  next_in-IsReceiving z ignoring_file v = v
  next_in-IsReceiving z storing_file v = v
  next_in-IsReceiving z all_done v = v

  either-IsReceiving :
      (b : Bool) (x y : Zip E)
      → IsReceiving x.bf
      → IsReceiving y.bf
      → IsReceiving (if b then x else y).bf
  either-IsReceiving true x y v v' = v
  either-IsReceiving false x y v v' = v'

  -- The receive buffer is well formed, and the result is negative, or positive, or nothing has changed.
  abbrev pub Sent : Zip E → Option ℕ × ℕ × Zip E → Type 0
  Sent z (none, addr, z') = IsReceiving z'.bf
  Sent z (some n, addr, z') = IsReceiving z'.bf × ((0 < n) ⊎ ((n ≡ 0) × (z' ≡ z)))

  module _ (calls : FileCalls E) where
    sent-Sent : (z0 z : Zip E) (i sz : ℕ) → IsReceiving z.bf → sz ≢ 0 → Sent z0 (sent calls z i sz)
    sent-Sent z0 z i sz v ne =
        let rf = file_at z.priv i in
        let rf' = record rf { done = add32 rf.done sz } in
        let bf' = record z.bf { decoded_head = go_on z.bf z.bf.decoded_head sz } in
        let z' = record z { bf = bf'; priv = put_file z.priv i rf' } in
        let closed = record z' { rest = calls.remove (calls.close z'.rest rf.fd) rf.name } in
        let v' : IsReceiving bf' = record {
          whole = v.whole;
          storage = v.storage;
          head_in = v.head_in;
          tail_in = v.tail_in;
        } in
        (
          either-IsReceiving (leb rf'.size rf'.done) (next_in closed closed.priv.state) z'
              (next_in-IsReceiving closed closed.priv.state v') v',
          inl (omega (arith, ne)),
        )

    read_in-Sent :
        (z0 z : Zip E) (i addr sz : ℕ) (r : Option (List ℕ) × E)
        → IsReceiving z.bf
        → sz ≢ 0
        → Sent z0 (read_in calls z i addr sz r)
    read_in-Sent z0 z i addr sz (none, e) v ne = v
    read_in-Sent z0 z i addr sz (some bytes, e) v ne =
        sent-Sent z0
          (record z {
            bf = record z.bf { decoded_buf = blit z.bf.decoded_buf z.bf.decoded_head bytes };
            rest = e;
          })
          i sz
          (record {
            whole = v.whole;
            storage = v.storage;
            head_in = v.head_in;
            tail_in = v.tail_in;
          })
          ne

    reopened-Sent :
        (z0 : Zip E) (i addr sz : ℕ) (r : Bool × Zip E)
        → IsReceiving r.1.bf
        → sz ≢ 0
        → Sent z0 (send_reopened calls i addr sz r)
    reopened-Sent z0 i addr sz (false, z) v ne = v
    reopened-Sent z0 i addr sz (true, z) v ne =
        read_in-Sent z0 z i addr sz (calls.read z.rest (file_at z.priv i).fd sz) v ne

    pub send_file-Sent :
        (z : Zip E) (addr : ℕ) (file : Option ℕ)
        → IsReceiving z.bf
        → Sent z (send_file calls z addr file)
    unfolding send_file
    send_file-Sent z addr none v = v
    send_file-Sent z addr (some i) v =
        let rf = file_at z.priv i in
        let sz = min 128 (min (bf_dec_space_to_end z.bf) (sub32 rf.size rf.done)) in
        elim (Bool-cases (sz == 0)) [
          | inl t ↦ rw t (v, inr (refl, refl))
          | inr t ↦
              let ne : sz ≢ 0 = ground (arith, t) in
              elim (Bool-cases (rf.done == 0)) [
                | inl t1 ↦
                    rw (t, t1)
                      (reopened-Sent z i addr sz
                        (reopened calls z i
                          (calls.open_file (calls.close z.rest rf.fd) rf.name false 0))
                        v ne)
                | inr t1 ↦ rw (t, t1) (read_in-Sent z z i addr sz (calls.read z.rest rf.fd sz) v ne)
              ]
        ]

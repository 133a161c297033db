-- ===== src/Tests/Flow.antt =====
-- Inputs for the flow of a file.
use libdfu.Base.{
  ℕ, ◌≡◌, ◌==◌, true, false, some, none, [], ◌∷◌, suc, replicate, length-replicate, arith,
  if◌then◌else◌,
}
use libdfu.Flow.{Ops, World, init_file, do_write}
use libdfu.Flow.Init.{Ready, init_file-Ready}
use libdfu.Flow.Write.{Wrote, do_write-Wrote}
use libdfu.Tests.BinaryFile.{fresh, queued, queued-IsQueueing, two_kib-IsSize}

init_file-Ready_example :
    ((init_file fresh (replicate 2048 1) [] 2048 (some 128)).0 ≡ true)
    × Ready (init_file fresh (replicate 2048 1) [] 2048 (some 128)).1
init_file-Ready_example =
    init_file-Ready fresh (replicate 2048 1) [] 2048 (some 128)
      (omega (arith, length-replicate {A = ℕ} 2048 1)) two_kib-IsSize (omega arith, omega arith)

-- The target counts the chunks that it was given and takes two of them.
abbrev counting : Ops ℕ
counting = record {
  busy = λ d. false;
  ignore_alignment = λ d. false;
  must_erase = λ d addr len. (false, d);
  chunk_available = λ d addr bytes. (if d == 2 then false else true, suc d);
  rx_method_done = λ d. d;
  interface_done = λ d. d;
  formats = [];
  rx_timeout = 9;
}

abbrev world : World ℕ
world = record {
  file = queued;
  device = 0;
  timers = record { slots = none ∷ none ∷ none ∷ none ∷ []; values = λ p. 0 };
  now = 100;
}

do_write-Wrote_example : Wrote queued (do_write counting world).0 (do_write counting world).1.file
do_write-Wrote_example = do_write-Wrote counting world queued-IsQueueing

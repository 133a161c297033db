-- ===== src/Tests/EspFiles.antt =====
-- A file in a small flash in memory: sectors of 256 bytes, the first of which is erased but for its name.
use libdfu.Base.{ℕ, ◌+◌, ◌<◌, ◌≡◌, refl, true, some, ◌==◌, if◌then◌else◌, arith}
use libdfu.EspFlash.{Bytes}
use libdfu.EspFiles.{Store}
use libdfu.EspFiles.Access.{file_read, file_write, file_close}
use libdfu.EspFiles.Transfers.{IsFresh}
use libdfu.EspFiles.RoundTrip.{file_read-file_write}
use libdfu.Tests.EspFlash.{in_memory, in_memory-IsFlash, counting}

abbrev erased_store : Store Bytes
erased_store = record {
  flash_first_sector = 1;
  nsectors = 2;
  sectsize = 256;
  links = record { prev = λ p. if p == 1 then 10 else 1; next = λ p. if p == 1 then 10 else 1 };
  written = λ f. 0;
  max_size = λ f. 256;
  ram = record { bytes = counting; tmpbuf = λ i. 0 };
  device = λ a. 255;
}

erased-IsFresh : IsFresh {S = Bytes} (λ s. s) 1024 erased_store 1
erased-IsFresh = record {
  apart = omega arith;
  unwritten = refl;
  aligned = refl;
  inside = omega arith;
  blank = λ p le lt. refl;
}

-- Twelve bytes from address 400 are written, and read back to address 600.
file_read-file_write_example :
    (w1 : Store Bytes) × (file_write in_memory 64 erased_store 1 0 400 12 ≡ some (some 12, w1))
    × (w2 : Store Bytes) × (file_close in_memory 64 w1 (some 1) ≡ some (true, w2))
    × (w3 : Store Bytes) × (file_read in_memory 64 w2 1 0 600 12 ≡ some (some 12, w3))
    × ((i : ℕ) → i < 12 → w3.ram.bytes (600 + i) ≡ erased_store.ram.bytes (400 + i))
file_read-file_write_example =
    file_read-file_write in_memory-IsFlash (λ x. refl) 64 refl (omega arith) erased_store 1 400 12
      erased-IsFresh (omega arith) (omega arith) (omega arith) 600 (omega arith) (omega arith)
      (λ ne. absurd (ne refl)) (omega arith) (omega arith) (λ ne. absurd (ne refl))

-- ===== src/Tests/EspFlash.antt =====
-- A flash in memory, and transfers at addresses that are not aligned.
use libdfu.Base.{refl, ◌+◌, true, some, arith}
use libdfu.EspFlash.{Bytes, Ram, SpiFlash, copy, from, flash_read}
use libdfu.EspFlash.Read.Slow.{Ended, flash_read-Ended}
use libdfu.EspFlash.Write.{flash_write}
use libdfu.EspFlash.Write.Aligned.{IsFlash}
use libdfu.EspFlash.Write.Loop.{Wrote, flash_write-Wrote}

abbrev pub in_memory : SpiFlash Bytes
in_memory = record {
  erase_sector = λ s sec. (true, copy s (sec + 0) (λ i. 255) 256);
  write = λ s dst bytes n. (true, copy s dst bytes n);
  read = λ s a n. some (from s a);
}

abbrev pub counting : Bytes
counting a = a + 1

pub in_memory-IsFlash : IsFlash in_memory (λ s. s) (λ old new. new) 1024
in_memory-IsFlash = record {
  reads = λ s a n al al_n fits i lt. refl;
  writes = λ s dst n bytes al al_n fits. (refl, λ p. refl);
  same = λ x. refl;
  whole = refl;
  small = omega arith;
}

abbrev empty_ram : Ram
empty_ram = record { bytes = λ p. 0; tmpbuf = λ i. 0 }

-- Nine bytes from address 5 to address 2, by way of the temporary buffer.
flash_read-Ended_example :
    Ended counting 5 2 9 empty_ram (flash_read in_memory counting 5 2 9 empty_ram)
flash_read-Ended_example =
    flash_read-Ended in_memory counting counting 1024 (λ a n al al_n fits i lt. refl) refl
      (omega arith) 5 2 9 empty_ram (omega arith) (omega arith) (omega arith) (λ h. omega arith)

flash_write-Wrote_example :
    Wrote in_memory-IsFlash
      (λ a. 255)
      5
      (from counting 2)
      9
      (flash_write in_memory (λ a. 255) 5 2 9 counting)
flash_write-Wrote_example =
    flash_write-Wrote in_memory-IsFlash (λ a. 255) 5 2 9 counting (omega arith) (omega arith)
      (λ h. omega (arith, h)) (λ h h'. omega arith) (omega arith)

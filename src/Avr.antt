-- ===== src/Avr.antt =====
-- The AVR microcontrollers: their data, include/stk500-device.h and
-- src/target/stk500-device-atmega328p.c, and the two targets that program them.
pub mod Isp
pub mod Stk500
use libdfu.Base.{ℕ, Bool, true, Option, none, some, List, [], ◌∷◌}

-- `struct stk500_device_mem`
pub record DeviceMem : Type 0 where
  pub length : ℕ
  pub readback : ℕ × ℕ
  pub paged : Bool
  pub page_size : ℕ

-- `struct stk500_device_data`, as far as the targets read it
pub record DeviceData : Type 0 where
  pub devcode : ℕ
  pub pagel : ℕ
  pub bs2 : ℕ
  pub rd : ℕ
  pub lock : Option DeviceMem
  pub fuse : Option DeviceMem
  pub lfuse : Option DeviceMem
  pub hfuse : Option DeviceMem
  pub efuse : Option DeviceMem
  pub flash : Option DeviceMem
  pub eeprom : Option DeviceMem
  pub chip_erase : List ℕ
  pub enter_progmode : List ℕ
  pub chip_erase_delay : ℕ

-- `atmega328p_flash`
abbrev pub atmega328p_flash : DeviceMem
atmega328p_flash = record { length = 32768; readback = (0, 0); paged = true; page_size = 128 }

-- `atmega328p_device_data`
abbrev pub atmega328p : DeviceData
atmega328p = record {
  devcode = 134;
  pagel = 215;
  bs2 = 194;
  rd = 0;
  lock = none;
  fuse = none;
  lfuse = none;
  hfuse = none;
  efuse = none;
  flash = some atmega328p_flash;
  eeprom = none;
  chip_erase = 172 ∷ 128 ∷ 0 ∷ 0 ∷ [];
  enter_progmode = 172 ∷ 83 ∷ 0 ∷ 0 ∷ [];
  chip_erase_delay = 9000;
}

-- What the targets ask of the rest of the program: `dfu_binary_file_chunk_done` with the address and
-- whether the status is 0, and the delay of the host.
pub record Program (E : Type 0) : Type 0 where
  pub timeout_id : ℕ
  pub file_chunk_done : ℕ → Bool → E → E
  pub udelay : Option (ℕ → E → E)

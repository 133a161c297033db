-- ===== src/Tests.antt =====
-- Tests on small inputs, and the instances of the theorems at inputs that meet their hypotheses.
mod BinaryFile
mod Flow
mod Formats
mod NordicZip
mod Crc
mod Timeouts
mod Command
mod Stm32
mod Avr
mod EspFlash
mod EspFiles
mod SectorList
mod FileTable

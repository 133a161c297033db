-- ===== src/Lib.antt =====
-- libdfu: firmware updates from a microcontroller or a host to a target device.
--
-- Data comes in by a receive method, is kept in a circular buffer, decoded by a file format into a
-- second buffer, cut into chunks of the target's page size, and written to the target, one chunk at
-- a time, over an interface. A list of timeouts and an idle loop drive it all.
--
--   Circular      include/dfu-internal.h, `_count`, `_space`, `_count_to_end`, `_space_to_end`
--   BinaryFile    include/dfu-internal.h, `struct dfu_binary_file` and its getters
--   Append        src/binary-file.c, `_bf_append_data`: bytes enter the receive buffer
--   WriteChunks   include/dfu-internal.h and src/binary-file.c: the ring of write chunks,
--                 `bf_enqueue_for_writing`
--   Ihex          src/binary-format-ihex.c: digits, headers and the probe; Ihex.Chunk: the decoder
--   NordicZip     src/binary-format-nordic-zip.c. NordicZip.Search: signatures; NordicZip.Receive: the
--                 files of an archive; NordicZip.Images: the manifest; NordicZip.Send: the images as
--                 they are sent; NordicZip.Decode: the states
--   Raw           src/binary-format-bin.c
--   Flow          src/binary-file.c: set-up, writing, flushing, the end of a chunk, the idle handler;
--                 targets, formats and receive methods are the operations of `Ops`
--   DeviceLoop    src/dfu.c, `dfu_idle`, on the callbacks of `LoopOps`
--   Crc32         src/crc32.c
--   Timeouts      src/dfu.c, `_insert_timeout`, `_remove_timeout`
--   Interface     src/interface.c: the operations of a driver, with the setup put off
--   Command       src/target/dfu-cmd.c, include/dfu-cmd.h: commands of several buffers to a target.
--                 Command.Next: the end of a buffer; Command.Engine: the step and its callers
--   Stm32         src/target/stm32-usart.c, include/stm32-device.h, src/target/stm32-device-f469.c: the
--                 flash and its sectors; Stm32.Commands, Stm32.Target: the operations of the target
--   Avr           include/stk500-device.h, src/target/stk500-device-atmega328p.c, the data of an AVR.
--                 Avr.Isp: src/target/avrisp.c; Avr.Stk500: src/target/stk500.c
--   EspFlash      src/file-container-esp8266.c: reads and writes of the SPI flash at any address.
--                 EspFlash.Write: the writes; EspFlash.Read: what is read
--   EspFiles      src/file-container-esp8266.c: the files and the container over them
--   FileTable     src/file-container.c: the table of open files, over the operations of a container
--   SectorList    src/file-container-esp8266.c: the lists of free sectors and of the sectors of a file
--   Base          shared names, lists over the native numbers, words and bit masks
--   Tests         inputs on which the theorems apply
--
-- A C `int` or `unsigned long` address is a number, with the wrap at 2^32 written out where the source
-- computes with it (`Base.Word`). Chunks and timeouts are named by their index or their number in
-- place of a pointer. The loop of `bf_enqueue_for_writing` runs on fuel `len + 2`: a round takes one
-- byte at least, and only a round that closes a pending chunk takes none, after which comes a new one.
-- `ihex_decode_chunk` runs on two rounds more than there are bytes: a line takes one byte at least off
-- the receive buffer, or is the last. A target that lacks an operation has one that does nothing.
--
-- The search for a signature has a step for each byte in the receive buffer and one more.
-- `nz_decode_chunk` has two rounds for each byte there and two more; the loop of `nzbf_calc_crc`, which
-- is on a number of rounds that is given, does not count its bytes.
--
-- A round of `_do_send` or `_do_read` moves one byte at least, so that they have one round for each
-- byte; beyond, the source goes round for ever, which is an outcome of its own. The wait of
-- `dfu_cmd_do_sync` is on fuel, with no outcome when it runs out.
--
-- A round of `_flash_read` or `_flash_write` moves one byte at least, so that a round for each byte is
-- enough; masks of an address with ~3 are written with division.
--
-- Not modelled: logging, the drivers of interfaces and hosts, the HTTP server and the vendored parsers,
-- which are I/O or copies of other projects; the files of the POSIX container, which are calls of the C
-- library; the target for Nordic, and the set-up and end in src/dfu.c; what lies in memory behind the mask
-- of the erased sectors of an area.
pub mod Base
pub mod Append
pub mod Avr
pub mod BinaryFile
pub mod Circular
pub mod Command
pub mod Crc32
pub mod DeviceLoop
pub mod EspFiles
pub mod EspFlash
pub mod FileTable
pub mod Flow
pub mod Ihex
pub mod Interface
pub mod NordicZip
pub mod Raw
pub mod SectorList
pub mod Stm32
pub mod Timeouts
pub mod WriteChunks
pub mod Tests

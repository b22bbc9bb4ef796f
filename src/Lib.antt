-- ===== src/Lib.antt =====
-- jekv is a key-value store for flash: typed values under string keys, in groups, in a partition of
-- sectors of 4096 bytes. A sector has a header and 127 slices of 32 bytes; an entry is an item of one
-- slice, followed by the slices of its data where that is longer than 8 bytes. Updates write a new
-- entry and mark the old one as dropped; a garbage collection copies the entries in use of one sector
-- into an idle one and erases the first.
--
-- The parts, bottom up, and the files that model them (paths from the repository's root):
--   Port       porting/jekv_porting.h: the flash device as a function from addresses to bytes, and
--              the driver and the allocator as a record `Driver` that every function takes as an
--              instance argument. `Port/Crc32` is the checksum of porting/jekv_porting_pc.c and
--              porting/jekv_porting_freertos.c. `Port/Laws` says what a reliable driver does, and has
--              one in memory.
--   Item       src/jekv_item.c: the 32-byte item, its checksums and its span.
--   Hash       src/jekv_hash.c: the index of one sector.
--   Partition  src/jekv_partition.c: accesses with the checks of range and of the read-only mark.
--   Sector     src/jekv_sector.c: `State` (header, state, erase, init), `Write`, `Find`, `Load` (the
--              scan at the start) and `Copy` (the move of entries into another sector).
--   Manager    src/jekv_sector_manager.c: the sector array with its lists of active and idle
--              sectors; `Request` (activation, garbage collection), `Load`, `Recover` (the checks
--              after a power failure) and `Query`.
--   Storage    src/jekv_storage.c: `Groups`, `Check` (blobs at the start), `Blob`, `WriteBlob`,
--              `Items` (write, read, delete) and `Opening`.
--   Ptm        src/jekv_partition_manager.c and src/jekv_handler.c: the storages in use and the open
--              handles, each at its address. `Linked` and `Kept` are about the two lists, `Grants` is
--              what they promise: a map from handles to what each grants.
--   Iterator   src/jekv_iterator.c: a cursor over the items of a partition.
--   Api        src/jekv_base.c: `Sessions` (partitions and handles), `Values` (setters, getters,
--              deletions), `Entries` (iterators); `Calls` are sequences of calls.
--   Easy       easy/jekv_easy.c: the interface with one global handle.
--   Port/Pc    porting/jekv_porting_pc.c: flash emulated in a file.
--   Base       the shared tests, lists, words and error codes; `Config` has the constants.
--   Tests      concrete inputs.
-- A function of the model has the name of the C function without its prefix jekv_, sector_ or sm_;
-- where two parts share a name the prefix stays (sm_find_item, storage_write_item).
--
-- State is passed explicitly. `Exec S A` is a function from a state to a result and a state, and a
-- do block of it returns early where the C code returns an error; `attempt` is a call whose error the
-- caller looks at itself or ignores. Each layer has its state: the device (`Flash`), the device with
-- one sector (`Sector.State.Ctx`), with the buffer of the caller (`FindCtx`), with two sectors
-- (`CopyCtx`), with the manager (`SmCtx`), with the storage (`StCtx`), and with all storages, handles
-- and iterators (`Ptm.System`). A sector is named by its place in the array, and the linked lists of third/dlist.h are lists of places.
--
-- Loops are recursion on fuel. The search of a sector has `end - start` turns, the scan of a sector
-- 127, the copy of a sector 127, the search for the last item 128, the walk over the entries of a
-- sector 128; each turn passes one slice at least. The loop that writes a blob takes the number of its
-- turns as an argument and answers `fault`, a code of the model alone, where they run out.
--
-- Conventions of the model: a string is the list of its bytes without the terminator; bit fields and
-- words lie lowest bit and byte first, as the compilers of the ports lay them out; size_t and pointers
-- have 32 bits; the allocator
-- answers by the size it is asked for, and the address that it grants is an argument (`Ptm.Platform`);
-- reading through NULL or through a pointer to freed memory is the code `fault`; an index whose table
-- was lost has no nodes. The sets of bits in storage_find_group are the ids of the groups, which are
-- below 64 there.
--
-- Not modelled: jekv_print and jekv_iterator_print, logging and the debug commands, which only print;
-- the FreeRTOS port, whose calls of flash and of the mutex are not in the repository; the list macros of third/dlist.h; two calls of the public interface at
-- the same time, which its lock excludes but for the reads that jekv_del_group and jekv_get_info make of
-- the handle; power failure in the middle of an operation, other than what the checks at the start make
-- of the contents of the device.
pub mod Base
pub mod Config
pub mod Port
pub mod Item
pub mod Hash
pub mod Partition
pub mod Sector
pub mod Manager
pub mod Storage
pub mod Ptm
pub mod Iterator
pub mod Api
pub mod Easy
pub mod Tests

-- ===== src/Lib.antt =====
-- The C code of DhruvaOS.
--
-- boot/stage0 is the A/B kernel-slot loader. `stage0_main` (boot/stage0/stage0_main.c) reads two
-- slot-state records from the SD card, goes by the valid one with the higher generation, counts the
-- boot attempt, falls back to the other slot when the limit is passed, writes the record over the
-- older of the two blocks, loads the slot's payload, checks its SHA-256 and jumps.
--
-- boot/stage0/sdread.c is the driver of the SD controller that `stage0_main` calls: commands to the
-- card (`stage0_send_cmd`), the initialization of controller and card (`stage0_sd_init`), and reads
-- and writes of a block through the FIFO (`stage0_sd_read_block`, `stage0_sd_write_block`).
--
-- boot/rpi1/runtime_stubs.c is what the kernel's compiled code needs below it: a heap that only grows
-- (`dhruva_alloc_bytes`, `dhruva_alloc_stack_guarded`), stacks in per-task domains
-- (`dhruva_alloc_stack_domain`, `dhruva_alloc_usrstack_domain`), fault injection, and `strlen`,
-- `memcpy` and a small `dprintf` for messages on a panic.
--
-- Files:
--   Base         helpers: tests, lists over native numbers, C words, laws of the bit operations
--   Sha256       boot/stage0/sha256.c; Sha256/Spec is a description over its compression function,
--                Sha256/Fips one that is independent of the code, with constants from Sha256/Roots
--   Crc32        `crc32_bytes` of boot/stage0/stage0_main.c
--   Slot         `struct slot_state`, `parse_slot_state`, `build_slot_state`
--   Boot         the steps of `stage0_main` that compute; Boot/Run composes them over an SD card;
--                Boot/Verify and Boot/Started are about its jumps, Boot/Faults about its halts, and
--                Boot/Keeps about the blocks that it touches
--   Sd           boot/stage0/sdread.c; Sd/Card is the driver as the card of Boot/Run
--   Heap         the allocators of boot/rpi1/runtime_stubs.c
--   Console      `dprintf` and its number output on texts, in boot/rpi1/runtime_stubs.c
--   Memory       `strlen` and `memcpy`, in boot/rpi1, boot/rpi4 and boot/stage0
--   Uart         the polled UART of all three programs: `dprintf` over memory, the reports before a
--                halt (`dhruva_oom_fatal`, `exit`, `stage0_fault`), the lines of `stage0_main`
--   Rpi4         the allocators of boot/rpi4/runtime_stubs_rpi4.c
--   Tests        runs on concrete data, and an instance of each result
--
-- A buffer is the list of its bytes, a word a native number below 2 ^ 32 whose sums are cut where C
-- cuts them. `struct slot_state` is the record SlotState with the fields of the same names.
-- `stage0_main` takes the SD driver as a record of three functions (Boot/Run, SdCard) and returns how
-- it ends, with the lines that it printed. The driver is a state passing through its loads and
-- stores: the hardware is a parameter (Sd, Device), with what a load returns and does and what a store
-- does, and a trace records the arguments, sizes, commands and data words. Of the hardware it is only
-- assumed that a load takes more than no time and at most 1000 seconds, and that the timer shows the
-- microseconds modulo 2 ^ 32 (Sd/Access, IsTimed); what a card answers is free. A card of
-- `stage0_main` may also be any other; that its blocks are bytes is assumed where it is needed
-- (Boot/Bytes, GivesBytes). A line that the driver or `stage0_main` prints is an entry of a log: that
-- it gets to the UART presumes one that drains, and Uart states when the calls that print return.
-- Heap's Allocator is the allocator's static variables with the memory as a function from addresses;
-- an `unsigned long` has 32 bits there. The memory is apart from the static variables and its addresses
-- do not wrap, as for requests that fit; a request near 2 ^ 32 is not covered, since its check wraps.
--
-- Bounds and fuel: `direct_blocks` has as much fuel as bytes and takes 64 in each round;
-- `pad_zeros` has 64 rounds, and its result is proved to be some context; `hash_chunks` has as much
-- fuel as bytes, and each chunk takes at least one. Printing a number has 24 rounds, the size of the
-- code's array of digits, and `dprintf` one for each character of its format. The loops with a fixed
-- count recurse on the count. A loop of the driver that watches the timer has fuel for every
-- nanosecond of its budget, which is at most a second, so 10 ^ 9 is enough; the loops over the FIFO
-- have a round for each of the 128 words besides the waiting rounds that the code counts.
--
-- A UART is the answers of its registers to the reads in turn (Uart, Bus), and what was written; of
-- them it is assumed that the flag for a full FIFO is clear within a number of reads (Uart/Prints,
-- Drains). That number is also the fuel of the loops over a string, which then has fewer bytes.
--
-- Not modelled: the calls of `stage0_arm_watchdog`, which are compiled out, barriers and other
-- assembly, the two `host_virtual_disk` stubs that only return -1, and the kernel, which is written in
-- another language.
pub mod Base
pub mod Boot
pub mod Crc32
pub mod Sha256
pub mod Slot
pub mod Heap
pub mod Console
pub mod Memory
pub mod Rpi4
pub mod Sd
pub mod Uart
pub mod Tests

-- ===== src/Lib.antt =====
-- PIM_SW: the driver, the user-space library and parts of the runtime of a processing-in-memory card.
--
-- The kernel module (sw/drv) hands out the card's memory in hugepages. Each of its two regions, DRAM
-- and GPR, has a ledger with a bitmap; each open file has a bitmap of its own over the same
-- indices. A process allocates and frees through ioctls, and closing a file returns what it holds.
--
-- Driver/Bitmap.antt takes the kernel's bitmap library as a parameter, a record of its functions with
-- their documented laws; Driver/Bitmap/Plain.antt is an instance for concrete runs.
-- Driver/Ledger.antt is sw/drv/pim_chunk.c and the address conversions of sw/drv/pim_drv.h: the
-- allocator on one region, with the names of the C functions less the prefix `pim_`. `Share` is what
-- such a call works with: the ledger, and the part of the file that belongs to it. Its child modules
-- hold the lemmas: how extents name hugepages (Extents), the search of stage 2 (Search), the
-- invariant (Invariant), committing and releasing lists of extents (Commit, Release), allocation,
-- free and reclaim (Alloc, Free, Reclaim), and what they share (Moves).
-- Driver/File.antt is sw/drv/pim_file.c: the ioctls on the state of the module and of one file.
-- Failures of the kernel's services are an argument, `Faults`.
-- Driver/Module.antt is `ledger_init` of sw/drv/pim_main.c and the loaded module with all its open
-- files, stepping by the file operations.
--
-- Driver/Init.antt is `check_geometry` and `pim_init` of the same file, and what PIM_IOC_GET_INFO
-- reports; Driver/Init/Loads.antt says what a module that has loaded reports.
--
-- The user-space library (sw/lib) asks the driver for the geometry, derives the granules and checks
-- it. Library/Geometry.antt is sw/include/pim/pim_geometry.h and sw/lib/pim_geom.c; its child modules
-- are about the check (Check), the derived fields (Derive) and the decoding of addresses (Decode).
-- Library/Open.antt is the part of `pim_open` in sw/lib/pim_dev.c that takes the report over, and
-- Library/Open/Started.antt joins it to the start of the driver.
-- Library/Records.antt is the record table of sw/lib/pim_alloc.c, which says what allocation a pointer
-- is inside; its children are about the binary search (Search), lookup and insertion (Lookup), and
-- removal (Remove). The search has a round for each entry.
-- Library/Resolve.antt is `pim_resolve_ctx` and the two queries beside it, in the same file: its
-- children are about the run of card addresses (Run) and the whole call (Pointer). The run is
-- extended in at most one round for each granule of the record.
--
-- Library/Pool.antt is the granule pool of that file: hugepages from the driver, cut into granules.
-- What the pool asks of the driver is an interface, `Source` of Library/Pool/Supply.antt, with its
-- laws in `Lawful`; Library/Device.antt has the calls of sw/lib/pim_dev.c on the driver's model, and its
-- children are about the hugepages of extents (Pages) and those laws for the calls (Laws), from what
-- the calls do to the bitmaps alone (Driver/Ledger/Bits.antt, Driver/File/Bits.antt).
-- The other children are about which granules are in use (Slots), writing one bit (Wrote), taking
-- granules (Take, Sweep, Taken), the search (Find), giving back (Give), new hugepages (Insert), one
-- extent of them (Run) and all of them (Grow), and trimming: which hugepages (Choose), closing the
-- list (Compact), the whole (Trim). The word of bits of a hugepage is a test of the bit's number; each
-- loop has a round for each entry, granule or hugepage.
-- Library/Allocator.antt is the public allocator of the same file, on top of the pool and the record
-- table: the rounding of sizes and addresses (Rounding), what an allocation does on every path
-- (Outcome), and freeing (Freed). `Services` is what the operating system answers in a call.
-- Library/Address.antt is sw/lib/pim_addr.c, the addresses of broadcast units (Units) and GPR words.
-- Library/Transfer.antt is sw/lib/pim_memcpy.c: a copy is split into runs of card addresses (Copy), a
-- run into system calls (Chunks), and raw reads and writes stay within a window (Raw). A transfer of
-- n bytes has n + 1 rounds, since each round but the last moves at least one byte.
--
-- The second runtime (sw/runtime) stands on the library. Runtime/Isr.antt is the 256-bit instruction
-- word, `emu_isr_set` of hwdef/emu_regs.h and `isr_put`. Runtime/Lower.antt is sw/runtime/pim_lower.c,
-- which makes a program of a logical one and of the addresses that the queries of Library/Address.antt
-- give: its children are about the programs that the calls build (Built), the image of each
-- instruction (Placed), the whole call (Lowered), the atoms (Atoms) and when it succeeds (Runs).
-- Runtime/Tensor.antt is sw/runtime/pim_tensor.c: the shape (Plan), the place of an element (Place),
-- and what fills it, Runtime/Tensor/Fill.antt, on an interface `Card` for the transfer with its laws in
-- `Lawful`: one output of a rectangle (Scatter), all of it (Filled), the whole matrix (Upload), and a
-- matrix that grows (Zero, Append, Truncate). Transfers has the laws for the transfers of the
-- library, on what Library/Transfer/Effect.antt says they do to the bytes on the card. `scatter` has a round for each element of an output,
-- and each round writes at least one.
-- Runtime/MacExact.antt is sw/runtime/pim_mac_exact.c, the card's sum of products bit by bit: a beat of
-- sixteen products there, the accumulator and the whole function in its child Latch, and below that
-- what comes of a product that is no number (Nan), of a factor of zero (Silence), and of the 29 bits
-- of the sum (Exact). The search for the highest bit has 32 rounds, one for each bit of a word.
-- Runtime/MatVec.antt is the part of sw/runtime/pim_matvec.c that cuts a slice of a product into chunks
-- (Slice) and counts instructions; the loop over the groups has a round for each group, and a round
-- takes at least one.
--
-- Addresses and 64-bit counters are natural numbers with the wrap-around of the C types written out
-- where the code computes (`u64`, `add64`). The search of stage 2 runs on fuel, one round for each
-- hugepage asked for: a round finds at least one, and the theorems on its results show that this
-- is enough. The mutexes hold for the whole of a call, so a call is one step. A free request that
-- names a hugepage twice is left out of the steps: it breaks the count of free hugepages.
--
-- `log2u` has 64 rounds, one for each bit. A remainder by 0 is the number itself here and a trap in
-- C; only a topology of 2 ^ 64 bytes would come to that.
--
-- Not modelled: the texts of messages, /proc/pim, the ordering of two threads' transfers, the rest of
-- the runtime above the library (operations, execution, the schedule of a matrix-vector product), the first runtime, and
-- the programs that drive the board.
pub mod Common
pub mod Driver
pub mod Library
pub mod Runtime

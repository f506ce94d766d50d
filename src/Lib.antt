-- ===== src/Lib.antt =====
-- A model of LFI's runtime, which runs untrusted code in sandboxes inside one host process, and the
-- theorems that its memory and its tables stay in order.
--
-- The parts. An engine reserves address space from the host and hands it out to sandboxes (boxmap),
-- chunk by chunk (extalloc). A sandbox (box) keeps a map of its pages (mmap), asks the host to map and
-- protect them, and has an external verifier check code before it runs. The embedder reads and writes
-- the sandbox through bounds checks, and registers functions that the sandbox may call (callback). On
-- top of this the Linux personality loads programs into the sandbox (elfload), gives them file
-- descriptors (fd), a program break and the memory system calls, and frees a process when all its threads
-- are out of it.
--
-- Prelude: Boolean tests, lists over the native numbers, 64-bit words, runs that can abort.
-- Host: the host system calls, answered by an oracle, which is a parameter; a trace records them.
-- ExtAlloc: core/extalloc.c. `bitvec` is a list of bytes. Children: Bits (single bits), Find (the
--   search), Alloc (one call), Extents and Apart (a client's sequence of calls).
-- BoxMap: core/boxmap.c. Children: Reserve (`reserve`, `addregion`, `boxmap_reserve`), Chunks and
--   Reserved (how these end), Guards (where a region lies in a reservation), Region, Spaces, Change
--   (what slots do to addresses), Ledger, Apart, Grow and Safety (a client's sequence of calls).
-- RangeMap: core/mmap/range_map.h. Children: View (the map as a function from keys to values, and the
--   order of its entries), Cut (iterators), Carve (`remove`), Change (`insert`), Find, Ranges (overlaps
--   and gaps), Gaps.
-- AddrSpace: core/mmap/mmap.cpp, the pages of a sandbox. Children: View (the mapping of a page), Change
--   (`unmap` and `map_at`), Protect, Search (`find_free`), Any (`map_any`).
-- Box: core/box.c. Children: Maps (mapping operations), New (creation), Access (copies), Session
--   (requests in sequence), WriteExec, Keeps and Safety (executable memory), Bounds (pointer checks),
--   Inside, Stays, StaysMap, StaysCall and Contained (where host calls go).
-- Callback: core/arch/x64/callback.c. Child Table.
-- Fd: linux/fd.c. Children: Table (order), Copy and Dup (`fddup2`), Session (calls in sequence).
-- Brk: linux/sys/sys_brk.c. Child Limit.
-- Memory: linux/sys/sys_mmap.c, sys_munmap.c, sys_mprotect.c and the `proc_map` functions of
--   linux/proc.c. Child Safety.
-- Elf: linux/elfload.c and linux/buf.h. Children: Load (headers, segments, `elf_load`), Inside, Place and
--   Contained (one segment), Pages, Segments and Image (the whole image), Interp (`elf_interp`).
-- Proc: the life of a process, from linux/proc.c, linux/trampoline.c, linux/sys/sys_clone.c and
--   sys_exit.c. Children: Life (the interleaved steps of its threads and of `lfi_proc_free`), Phases and
--   Safety (the invariant), Once (its end).
-- Thread: the initial stack of a thread, from linux/thread.c. Child Stack.
--
-- Conventions. A number of 64 bits is a natural number whose additions, subtractions and products wrap
-- (`add64`, `sub64`, `mul64`). A failed `assert` or an `abort` is `aborted`. A function that takes a
-- lock for its whole body is one step. A loop recurs on the rounds that are left or on its array, so
-- only `reserve`, which halves a 64-bit size until it is below a threshold, has fuel: 64 rounds, one
-- for each bit; its end is told apart from the source's answers.
--
-- Not modelled: the build with protection keys, the kernel, the verifier and the layout of <elf.h>
-- (parameters), the rest of a thread's life, futexes and the other system calls, assembly and output.
pub mod Prelude
pub mod Host
pub mod ExtAlloc
pub mod BoxMap
pub mod RangeMap
pub mod AddrSpace
pub mod Box
pub mod Callback
pub mod Fd
pub mod Brk
pub mod Memory
pub mod Elf
pub mod Proc
pub mod Thread

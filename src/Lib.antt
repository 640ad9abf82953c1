-- ===== src/Lib.antt =====
-- The kfs kernel, a 32-bit kernel in Rust, modelled from kernel/src.
--
-- Parts, and the files that model them.
-- * Pmm.antt is kernel/src/pmm.rs: the frame allocator. Its three statics FREE, TOTAL and AVAILABLE
--   are the record Pmm, passed along; each function of the source is the function of the same
--   name, with its loops as functions on fuel of their own. The children of Pmm hold the proofs.
-- * Heap.antt is kernel/src/heap.rs: the block allocator behind kmalloc and vmalloc. Its struct
--   is the record Heap, and the memory is the World of a Pager. Heap/Walk.antt, Heap/Break.antt,
--   Heap/Fit.antt and Heap/Alloc.antt hold the operations (last_block and find_block; grow, shrink
--   and brk; first_fit and take; alloc, free, size and stats), and their children the proofs.
--   Heap/Statics.antt has the two heaps of the kernel with kmalloc, vmalloc and their like, and
--   Heap/Statics/Steps.antt their calls as steps. Heap/Shared.antt is two heaps over one memory.
-- * Pager.antt is what the heap uses of kernel/src/paging.rs, kernel/src/pmm.rs and
--   kernel/src/panic.rs: words of memory, map_page, unmap_page, alloc_frame, free_frame and koops.
--   It is a record of operations with a record of laws; Pager/Flat.antt is a small instance,
--   and Paging/Owned.antt is the instance `paged` of the kernel's own code, proved in its children.
-- * Multiboot.antt is kernel/src/multiboot.rs: the record Ram and its push, and probe over the words
--   of memory that the loader has left.
-- * Paging.antt is kernel/src/paging.rs over physical memory: a Machine has words, control registers
--   and the frame allocator, and loads and stores go through the page tables.
--   Paging/Dump.antt is its dump, whose printed lines are a list, and Paging/Demand.antt is on the
--   pages that handle_fault maps.
-- * Boot.antt is init of kernel/src/mem.rs, which calls the other parts in turn; Boot/Runs.antt is on
--   the calls of the heaps that follow it.
-- * Mem.antt is the layout and the address tests of kernel/src/mem.rs, Klib.antt is kernel/src/klib.rs,
--   Vga.antt is kernel/src/vga.rs and Keyboard.antt is kernel/src/keyboard.rs. Gdt.antt is the segment
--   descriptors of kernel/src/gdt.rs, with what kernel/src/shell.rs reads from them.
-- * Idt.antt is kernel/src/idt.rs, Stack.antt is kernel/src/stack.rs, and Shell.antt is reading a line and
--   finding its command, of kernel/src/shell.rs.
-- * Heap/Tests.antt, Pmm/Tests.antt, Boot/Tests.antt, Shell/Tests.antt and Tests.antt have the theorems at concrete inputs.
-- * Base.antt has the shared names, Boolean tests, wrapping arithmetic and bit lemmas.
--
-- How they interact. Pmm.init reads the regions that the boot loader reports and frees the frames
-- inside them. A heap maps pages behind its break: a contiguous heap the frames of a block that
-- Pmm.carve has set aside, a scattered one the frames that alloc_frame hands out.
--
-- The abstract views. A frame allocator is the set of its free frames, free_bit. A heap is a row
-- of blocks (Heap/Blocks.antt), and to its clients the map from the address of a block to
-- the size of the allocation there (live). Well-formedness is Pmm.Valid, Paging.Owned and Heap.State.IsHeap.
--
-- Arithmetic and fuel. The release build wraps at 32 bits, which u32 and sub32 write out. The
-- loops over frames run on the number of frames; the walks over a heap run on the bytes from base
-- to break and one more, which is enough since each block moves the walk up by 16 or more; the
-- loop of shrink runs on the pages of the span and one more. The theorems hold without a fuel.
-- A heap is assumed to end 64 KB or more below 4 GB, as both heaps of kernel/src/mem.rs do.
--
-- The loop of probe moves on by sizes it reads, so it is given rounds; 2^32 of them are enough where
-- no entry that it visits has a size that carries it to the last 8 bytes below 4 GB or past them.
--
-- Not modelled: loading the descriptor and interrupt tables, the assembly, the shell's commands and the
-- report of a fatal fault, which print. Text that is printed is left out but for the two dumps, and an
-- oops is one operation of the Pager. The processor's cache of translations is not modelled, nor its
-- check of the writable bit when paging.rs has set write protection in cr0: a store to a page that is
-- there succeeds. The modelled code stores to page tables, to pages of the heaps and to pages that
-- map_new has just mapped with that bit; a store to another page that lacks it would fault, and what
-- the theorems say of a store does not hold of it.
pub mod Base
pub mod Multiboot
pub mod Pager
pub mod Boot
pub mod Gdt
pub mod Idt
pub mod Stack
pub mod Shell
pub mod Heap
pub mod Mem
pub mod Klib
pub mod Keyboard
pub mod Paging
pub mod Pmm
pub mod Vga
pub mod Tests

-- ===== src/Lib.antt =====
-- brackos: models and proofs of the kernel's core logic.
--
-- brackos is a 32-bit x86 kernel in C. At start-up `kmain` gives the free physical memory to the frame
-- allocator and the kernel's virtual addresses to the VASA (the virtual address space allocator);
-- `memmap` takes an address range from the one and frames from the other, and the slub allocator gets
-- its slabs from `memmap` and serves `kmalloc`. Drivers hand received packets on through a ring
-- buffer. The timer drives the clock, whose only event is the scheduler's, and the scheduler goes
-- around a ring of tasks; a task opens files of a tree in memory, below mount points. All parts print
-- through `kprintf`.
--
-- The files, each with the source that it is about (paths from the repository's root):
--   Base          what the parts share: Base/Outcome (how a C function ends), Base/Word (32-bit words),
--                 Base/Tests (Boolean tests), Base/Lists
--   Devices/Pci   src/kernel/devices/pci/pci.c: pci_device_new (fields_of, extra_of), pci_probe and its
--                 loops, pci_devlist_add, pci_get. Extra, Probe, Get: the proofs
--   Fs            src/kernel/fs: the records of files, references and mount points, and their memory. Tree:
--                 file.c up to file_resolve; Ref: ref.c; Vfs: vfs.c; Mount: mount.c and fs.c; Call: the calls
--                 of tasks, and vfs_init. Parts, Walk, Create, Reopen, Open: the proofs on paths; Fid, Read,
--                 Wipe: those on references, on reading and on mount points
--   Mem/Frame     src/kernel/mem/frame.c: FrameAlloc is `frame_alloc_t`; frame_add_free_item (with its
--                 recursion add_free_item_fuel and its search find_buddy), frame_alloc (its loop is
--                 alloc_from), frame_dealloc, frame_add_chunk (carve, largest_count), frame_free_count.
--                 Held: what a state holds, Add, Alloc, Chunk, Count, Loss: the proofs
--   Mem/Vasa      src/kernel/mem/vasa.c: VasaNode and Vasa are `vasa_node_t` and `vasa_t`, with the heap of
--                 the nodes; vasa_add_node (add_loop), vasa_alloc (alloc_loop, alloc_found, cut_waste,
--                 take_node), vasa_dealloc, vasa_mark, vasa_get_flags, vasa_init. Chain: the lists as
--                 sequences and what they cover; Insert, Taken, Cut, Alloc, Dealloc, Start, Mark, Flaws:
--                 the proofs
--   Mem/Paging    src/arch/i386/mem/paging.c: paging_map (ensure_table, map_entry), paging_unmap (unmap_entry,
--                 cleared, count_pages), paging_find_physical. Map, Release: the proofs
--   Mem/Slub      src/kernel/mem/slub.c: slabs, their free lists and the sizes of kmalloc; Mem/Slub/Cache has
--                 mem_cache_alloc (refill, take_object, keep_min) and mem_cache_dealloc on one CPU. Slab,
--                 Free, Classes: the proofs
--   Mem/Kmalloc   src/kernel/mem/kmalloc.c and src/kernel/mem/early.c: kmalloc, krealloc, kfree, kmem_swap and
--                 the early heap; the allocators behind them are the interface Allocators. Guard: the
--                 proofs
--   Mem/Large     src/kernel/mem/large.c: the list of large blocks, with cas of
--                 src/arch/i386/interrupts/cas.asm. Remove: the proofs
--   Net/Ring      src/kernel/net/net_buf.c: ring_init, ring_write (write_packet), ring_read (read_packet).
--                 Bytes, Packet, Limits: the proofs
--   Std/Kprint    src/std/kprint.c: each function as the characters that it passes to `kputch`. Decimal,
--                 Signed, Hex, Memory, Format: the proofs
--   Std/Array     src/std/list.c: list_init, list_add (store), list_get, list_find, list_rem (shift),
--                 list_free. Add, Rem: the proofs
--   Std/Math      src/std/math.c: ipow. Power: the proofs
--   Std/Str       src/std/string.c: all functions. Copy, Text: the proofs
--   Tasks         src/kernel/tasks/task.c, src/kernel/tasks/scheduler.c and src/arch/i386/tasks/cpu_task.c: Task
--                 and CpuTask are `task_t` and `cpu_task_t`, Kernel has the globals. Ring, Turn, Pid, Free:
--                 the proofs
--   Time/Clock    src/kernel/time/clock.c: clock_advance (advance_from, rearm, delete_event), clock_add. Step,
--                 Single, Countdown: the proofs
--   Time/Pit      src/arch/i386/time/pit.c: the timer. Sleep: the proofs
-- A module called Tests has runs of the definitions and the theorems at concrete states.
--
-- How the code is modelled. A function that changes global state takes and returns it. `Outcome` keeps
-- the ways apart in which a call can end: `ok`, `fault` (an access through NULL or out of range, a
-- division by 0), `hang` (a lock that is held already, or a loop that spins) and
-- `out_of_fuel`. A 32-bit word is a number below 2 ^ 32, and `% 2 ^ 32` is written where an operation
-- can wrap. A pointer is its address, and NULL is 0.
--
-- Fuel. A list walk of the VASA or the slub allocator takes `fuel`, which has to be more than the
-- length of the list: the theorems assume just that, and show that the call then returns. The merges of
-- the frame allocator have 21 rounds, since the count grows by one up to 20; `carve` has one round for
-- each byte of the region and one more, and each round takes at least a page; a decimal number has 11
-- rounds for 10 digits; ipow has 33 for the 32 digits of an exponent. A path takes a round for each of
-- its parts and one more, and a directory's walk more fuel than it has files.
--
-- What is a parameter. The nodes and slabs that kmalloc, the node caches and `memmap` hand out are a
-- budget (`nodes`) or a list of addresses (`supply`) in the state. What a node of the frame allocator
-- holds after it was given back, where a merge still reads it, is the function `freed`: the chunk's address,
-- or the pointer that the node cache has written over it. What stands on the stack in a number's buffer
-- is an argument of the printing functions. What `memmap` and `kmalloc` answer to large_mem_alloc are
-- arguments of it. The tasks' blocks and stacks are lists in the state (`blocks`, `stacks`), and what the
-- tasks do to the hardware and to freed memory is the list `events`. What `krealloc` gives list_add are
-- its arguments `fresh` and `memory`; its size is that of the slub allocator's block. The PCI configuration space is the function `config`.
--
-- What is not modelled: the devices behind `kputch` and the lock of kprintf; messages that the other
-- parts print; functions that only print (frame_status, vasa_print_state) or create a node cache
-- (frame_init, vasa_switch); mem_cache_new and _krealloc; ring_free, kcalloc and list_new; the ELF loader;
-- the names of PCI classes; and the other parts of the kernel (copies of the page directory, memmap and
-- memunmap, interrupts, drivers). The page table entries that the
-- processor has read before are not modelled. Locks are modelled for one CPU: nothing else runs between two steps of
-- a call. A callback of the clock leaves the list of events as it is.
pub mod Base
pub mod Devices
pub mod Fs
pub mod Mem
pub mod Net
pub mod Std
pub mod Tasks
pub mod Time

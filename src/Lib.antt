-- ===== src/Lib.antt =====
-- A model of the core of the yetanotheros kernel and of its C library, with the theorems that make
-- it correct. Paths are from the repository's root.
--
-- Parts, and the code that each models:
-- - Scheduler: kernel/arch/i386/scheduler.c with kernel/include/kernel/thread.h and proc.h. Process
--   table, thread queue, sleeping, conditions, collecting of processes. A critical section of the
--   global scheduler lock is one function from state to state; the loop of `enter_scheduler` is the
--   function `dispatch`, one round of it. Where a C function switches to the scheduler in its
--   middle, it is two functions. `Steps` lets any CPU take any critical section next.
-- - Heap: kernel/arch/i386/heap.c. `kalloc` and `kfree` on headers in memory, against the list of
--   blocks that the headers stand for. Loops run on fuel: one round more than the heap has bytes,
--   and every header takes 28 of them.
-- - Palloc: kernel/arch/i386/palloc.c. The free pages as a doubly linked list through the pages.
--   The loop of `palloc_add_free_region` runs on fuel, one round for each address and one more.
-- - Fat: kernel/kernel/fs/fat.c and fat_core.c with kernel/include/kernel/fs/fat_types.h and
--   fat_vfs.h. A volume's numbers from its boot sector (`Volume`), a step along a chain of clusters
--   (`Table`), reading (`Read`: a round of the outer loop for each byte asked for and one more) and
--   directory entries and paths (`Entry`, whose loops take their number of rounds as arguments).
--   The block device is a function from sector and offset to a byte.
--   `Nodes` and `Leaves` are kernel/kernel/fs/fat_vfs.c, the cache of nodes that the virtual file
--   system gets; `NodeSteps` lets callers get and put nodes in any order.
-- - Ata: the block cache of kernel/kernel/drivers/ata/generic.c, with the mutexes of the Process
--   part and `ata_pio_read` of kernel/kernel/devices/ata_pio.c. What a drive answers to a read, a
--   sector or an error, is an argument of each call; the driver ignores the error. `ata_pio_write`
--   is a stub in the source, so no call changes a disk, and the model has none: a write changes the
--   block in the cache, and is lost when the block is taken for another sector. `Steps` lets
--   callers lock, unlock, read and write blocks in any order.
-- - Vfs: kernel/kernel/vfs/core.c (`Mounts`), file.c and file_ops.c (`File`, `Lifetime`), and
--   kernel/kernel/syscall/file.c on top of them and of the table of descriptors (`Transfer`,
--   `Writing`, `Syscalls`, `Seek`). A node is an interface, `FileNode`, that gives no more bytes
--   than it is asked for, of whatever contents; `FatFile` fills it with the nodes of a FAT volume
--   whose clusters have one sector. The loop of a transfer has a round for each byte and one more.
-- - Process: kernel/kernel/proc.c, the table of opened files, and kernel/arch/i386/thread_lock.c,
--   mutexes and conditions on top of the calls of the scheduler's model. `Exclusion` lets threads
--   take the mutex's operations in any order.
-- - Libc: libc/string/memutils.c and strutils.c. Memory is a function from addresses to bytes
--   (`Memory`), a string the list of its characters before the terminator (`Strings`), or such a list
--   that stands in memory (`Copying`, with one unit of fuel for each character and one more).
--   `Stream` is the output of libc/stdio/stream.c; a descriptor is an interface, `Descriptor`,
--   that keeps account of the bytes it was called with, since the stream does not look at how
--   many were taken. Its loop has a round for each byte and one more.
-- - Buffer: kernel/kernel/exclusive_buffer.c, a buffer that does not grow, and the calls that do not
--   wait (`eb_try_read`, `eb_try_write`). `Refine` compares it with a queue.
-- - Vm: kernel/arch/i386/memlayout.c, the lookups in the map of memory regions. The map is an
--   argument, since the linker's symbols make it.
-- - Paging: kernel/arch/i386/paging/core.c and the memory of a process, kernel/arch/i386/proc.c.
--   Directories, tables and data are words and bytes of one physical memory (`Words`), and pages come
--   from the Palloc part. `Tables` has the entries, `Exchange` the bytes of another address space, in
--   a round for each page, of which there are no more than bytes; `Break` the break, in a round for
--   each page and two more. `Space` says what a well-formed address space is.
-- - Block: kernel/kernel/block/registry.c and mbr.c. A device is the functions that its reader calls.
--   Adding a device looks for partitions on it and adds those, and so on: the fuel is the number of
--   vacant slots and one more.
-- - Utils: `kstrcmp` of kernel/kernel/utils.c.
--
-- The mutexes stand on the scheduler's own functions. A thread that is destroyed goes out of the
-- scheduler's store; that its memory goes back to the heap is not part of that model. The heap gets
-- its pages from `palloc`, of which its model keeps only the addresses that are mapped, and not the
-- frames: the source does not look whether `palloc` had one.
--
-- Common: a call of kernel code returns (`ok`) or stops the machine (`panic`), which `kpanic` does,
-- and `kassert` with a false condition, since the kernel is built with KERNEL_DEBUG. Memory is a
-- function from addresses to what stands there. Unsigned integers are natural numbers with the
-- wrap-around written out where the code relies on it or could meet it.
--
-- Not modelled: the interrupt flags, control registers and task state segment, spinlocks (a locked
-- section is one step), the boot code, interrupts between processors, the APIC code, the port input
-- and output of the drivers, and the contents of pages beyond what the allocators read. The BSD
-- queue macros are lists.
pub mod Ata
pub mod Block
pub mod Buffer
pub mod Common
pub mod Fat
pub mod Heap
pub mod Libc
pub mod Paging
pub mod Palloc
pub mod Process
pub mod Scheduler
pub mod Utils
pub mod Vfs
pub mod Vm

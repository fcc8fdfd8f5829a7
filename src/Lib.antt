-- ===== src/Lib.antt =====
-- Agatha, a capability microkernel for ARM, and the libraries of its processes.
--
-- The kernel (sys/proc.c, sys/sys.c, include/sysobj.h) is modelled under Kernel. Its state is the record
-- Kernel.State.Kernel: objects lie at addresses, 0 is nil, and the fields of the objects of one C
-- type are maps from addresses, so that an assignment through a pointer is an `update` of a map. A
-- step returns `ok`, `refuse` (ERR with nothing changed) or `fault` (a read through nil or outside of
-- an array, or a panic).
--   Kernel.Links: the doubly linked lists of processes, on the ready queues and the endpoints
--   Kernel.Sched: the static `ready` of sys/proc.c, next_proc and what it calls
--   Kernel.Caps: proc_find_cap
--   Kernel.Objects: sys_obj_retype, sys_obj_split, sys_obj_merge and the set-up of each type
--   Kernel.Run: schedule, proc_ready, proc_fault, proc_free, proc_set_priority
--   Kernel.Ipc: endpoint_get_pending, recv, reply, mesg, signal
--   Kernel.Calls: the system calls on endpoints and processes
--   Kernel.Tables: the two-level page tables of arm/include/arm/mmu.h and arm/lib/c/mmu.c, the windows
--     of kernel_map in arm/kern/main.c, and the loops over pages of sys_frame_map and sys_frame_unmap
--   Kernel.Frames: the system calls of arm/kern/sys.c on frames and interrupts
--
-- Libraries and processes:
--   Text: lib/string, with strings as lists of characters
--   Pool: lib/pool, with the free list through the memory of the objects
--   Crc: lib/crc
--   Log: the log server procs/log/log.c, with its ring of bytes and its services (Log.Server)
--   Heap: malloc and free of lib/mem/alloc.c, with chunks as addresses
--   Fdt: the reading of device trees of lib/fdt/fdt.c, from bytes at addresses
--   Fat: lib/fat/fat.c, with the block server as a function from blocks to bytes
--   Block: the requests of lib/block/block.c to a block device, with the driver as a function
--   Virtq: the queues of arm/drivers/virtio/virtq.c
--   Ranges: the free memory of arm/root/mem.c, with the pool as the number of nodes it has left
-- Prelude has the tests on numbers, lists, maps and operations on bits that these share.
--
-- A call of schedule gives up the processor, so it ends a step: the caller's label says where it goes
-- on, and Kernel.Ipc.resume is what a process does when it is up again. The timer is a value of the
-- clock, SYSTICK is a parameter as it is one of the build. Loops over lists run on fuel; a list that is
-- shorter than the fuel is walked to its end, and the theorems say so as a hypothesis on the fuel, which
-- any greater number meets. The outer loop of next_proc needs two rounds for each of the priorities.
-- Time slices, of type int in the source, are numbers without bound. Kernel.Sched has one more ready queue
-- than ready[]: to move a process to it is a fault of proc_set_priority, but a process on no queue may get
-- that priority.
--
-- Page tables are words of the physical memory (Kernel.State.Mmu), read and written at their physical
-- addresses; of a window the model has where it lies, not what it maps. A loop over the pages of a
-- frame goes round as often as there are pages, for a frame of at most 2 ^ 32 - 4096 bytes. The loop of
-- sys_obj_create over sizes runs on fuel; 20 rounds are enough wherever it ends.
--
-- The log server's add_log needs three rounds for a line that has room, and send_logs one for each byte
-- at most. What snprintf makes of a line and what the serial port answers are arguments.
--
-- A walk over a device tree has fuel for the bytes of the names and one more for each word that it looks
-- at; without it the model says so. The callbacks of a walk are functions on a state of the caller.
--
-- A loop over a chain of clusters runs on fuel, of which more than the clusters of the chain is enough; on
-- a chain with a cycle no fuel is.
--
-- The 64 characters that printint has room for are its fuel, more than the digits of any 32-bit number.
--
-- Not modelled: the drivers behind their queues, the network code, the log-structured file system, the
-- debug output, the switch of registers and of address spaces, the start of the kernel and the interrupt
-- controller. procs/fatfs/main.c is written for system calls and headers that the repository no longer
-- has.
pub mod Prelude
pub mod Kernel
pub mod Text
pub mod Pool
pub mod Ranges
pub mod Crc
pub mod Log
pub mod Heap
pub mod Fdt
pub mod Fat
pub mod Block
pub mod Virtq

-- ===== src/Kernel.antt =====
-- The micro kernel: sys/proc.c, sys/sys.c and the object calls of arm/kern/sys.c.
pub mod Links
pub mod Sched
pub mod State
pub mod Caps
pub mod Objects
pub mod Run
pub mod Ipc
pub mod Calls
pub mod Tables
pub mod Frames
pub mod Tests

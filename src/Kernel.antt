-- ===== src/Kernel.antt =====
-- The microkernel, kernel/.
pub mod Rtab
pub mod Process
pub mod Schedule
pub mod Frame
pub mod Page
pub mod Syscall
pub mod Heap
pub mod Thread

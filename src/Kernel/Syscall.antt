-- ===== src/Kernel/Syscall.antt =====
-- System calls, kernel/syscall/.
pub mod Page
pub mod Send
pub mod Rtab

-- ===== src/Libc.antt =====
-- The C library, libc/.
pub mod Fdtab
pub mod Struct
pub mod Mqueue
pub mod Memory
pub mod Text
pub mod Malloc
pub mod Time
pub mod Search
pub mod Sort
pub mod Contab
pub mod Env
pub mod Ctype
pub mod Paths

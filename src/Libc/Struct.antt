-- ===== src/Libc/Struct.antt =====
-- libc/struct/
pub mod Table

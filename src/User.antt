-- ===== src/User.antt =====
-- The user programs: user/*.c.
pub mod Memory
pub mod Decimal
pub mod Libstr
pub mod Gets
pub mod Getbuf
pub mod Edit

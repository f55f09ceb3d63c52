-- ===== src/Xv6.antt =====
-- The test program of xv6/.
pub mod Readcount

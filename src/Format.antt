-- ===== src/Format.antt =====
-- The texts that the frontend makes of times, numbers, paths and errors.
pub mod Times
pub mod Texts
pub mod Ages
mod Tests

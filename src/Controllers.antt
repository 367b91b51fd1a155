-- ===== src/Controllers.antt =====
-- The controllers of controllers/: what a request does and what is answered.
pub mod Masking
pub mod Listing
pub mod Files
pub mod Accounts
mod Tests

-- ===== src/Clock.antt =====
-- The part of the luxon package that the program uses, as a parameter: `DateTime` with its
-- operations, and what the code relies on. Timestamps (`Iso`) are luxon's ISO 8601 texts.
mod Interface
pub mod Utc
pub use Interface.*

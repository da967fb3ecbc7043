-- ===== src/Stdlib.antt =====
-- c/rt/stdlib.c: the conversions, searching, sorting, and the end of the process.
pub mod Sort
pub mod Search
pub mod Convert
pub mod Process
pub mod Numbers
mod Tests

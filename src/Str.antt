-- ===== src/Str.antt =====
-- c/rt/string.c: the memory functions, the readers of strings, and the functions that store.
pub mod Memory
pub mod Compare
pub mod Search
pub mod Span
pub mod Token
pub mod Copy
mod Tests

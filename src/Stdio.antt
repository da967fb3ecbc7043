-- ===== src/Stdio.antt =====
-- c/rt/stdio.c: formatted output and streams.
pub mod Format
pub mod Output
pub mod Decimal
pub mod Stream
mod Tests

-- ===== src/Posix.antt =====
-- c/rt/posix.c.
pub mod Ctype
pub mod Getopt
pub mod Calls

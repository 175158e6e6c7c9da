-- ===== src/Libc.antt =====
-- libc/src: the parts of the C library that the programs parse and print with. A C string is the list of
-- its bytes before the terminating 0; a char is its code, and an int given to ctype is not negative.
pub mod Ctype
pub mod Strtol
pub mod Inet
mod Tests

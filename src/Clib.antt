-- ===== src/Clib.antt =====
-- The functions of the C library that the sources use on bytes. A pointer is the list of bytes from
-- where it points to the end of the object; a read past the end is a fault.
pub mod Words
pub mod Strings
pub mod Writer
pub mod Text
pub mod Decimal
pub mod Infix

-- ===== src/Text.antt =====
-- The functions of the C library on texts that the program calls (string.h, ctype.h, stdlib.h and
-- the number formats of stdio.h). A text is the list of its bytes without the closing NUL.
pub mod Scan
pub mod Number
pub mod Found
pub mod Printed

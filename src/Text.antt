-- ===== src/Text.antt =====
-- The operations of `str` that the program calls, over lists of code points. These model the
-- standard library's documented behaviour, so none of them is mapped to a line of the program.
pub mod Trim
pub mod Split
pub mod Decimal

-- ===== src/Text.antt =====
-- Text as the programs of lab3 and lab5 read and write it: numbers, words and lines.
pub mod Numbers
pub mod Words
pub mod Lines
pub mod Literals
pub mod Numerals

-- ===== src/Encoding.antt =====
-- src/encoding.c, en_uni.h, en_bics.h, en_atari.h: what reads one character of a page in its
-- encoding and writes it in the encoding of a font. Row is the search in a table, Tables and Latin
-- the tables, Utf8 the decoder, Unicode, Bics, Atari and Aes the four families of encoders.
pub mod Row
pub mod Latin
pub mod Tables
pub mod Lookup
pub mod Utf8
pub mod Reader
pub mod Latin9
pub mod Unicode
pub mod Bics
pub mod Atari
pub mod Aes
pub mod Select
pub mod Bounds
pub mod Steps
pub mod Ascii
pub mod Agree
pub mod RoundTrip
mod Tests

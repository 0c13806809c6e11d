-- ===== src/Http.antt =====
-- src/http.c: the dates, the character sets and the fields of an answer's header. Date is `http_date`,
-- Charset `http_charset`, Fields the functions for the single fields.
pub mod Date
pub mod Charset
pub mod Fields
pub mod Jars
mod Tests

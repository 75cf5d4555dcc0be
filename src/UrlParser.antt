-- ===== src/UrlParser.antt =====
-- The URL parser: src/common/url_parser.c with url_parser.h, compiled with its default
-- `C_HTTP_URL_PARSER_STRICT` of 1. The children `Chars`, `Machine`, `Host` and `Parse` hold the
-- definitions, in the order of the source.
pub mod Chars
pub mod Machine
pub mod Url
pub mod Host
pub mod Parse
pub mod Inside
pub mod Total
mod Tests

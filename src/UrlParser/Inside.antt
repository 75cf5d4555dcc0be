-- ===== src/UrlParser/Inside.antt =====
-- Where the fields of a URL lie: invariants of the two loops of url_parser.c.
pub mod Fields
pub mod HostSteps
pub mod HostRun
pub mod HostEnd
pub mod ScanRun

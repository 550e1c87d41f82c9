-- ===== src/Dcs.antt =====
-- rust-core/bedterm-core/src/dcs.rs: the shell-integration protocol.
pub mod Hex
pub mod Json
pub mod Body
pub mod Scan
pub mod Sniffer

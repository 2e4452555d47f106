-- ===== src/Storage.antt =====
-- hsm-core/src/storage.rs: power-fail-safe records in flash.
pub mod Record
pub mod AbPair
pub mod Config
pub mod RoundTrip
pub mod ParseWrite
pub mod Write
pub mod Stored
pub mod Pairs
pub mod PowerFail
pub mod Histories
pub mod FailClosed

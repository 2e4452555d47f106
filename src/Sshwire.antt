-- ===== src/Sshwire.antt =====
-- hsm-core/src/sshwire.rs: SSH wire data and the public keys of `authorized_keys` lines.
pub mod Reader
pub mod Key
pub mod Line
pub mod Cursor
pub mod Tokens
pub mod Bodies
pub mod Accepted
pub mod Mpint
pub mod Panic
pub mod NoPanic
pub mod Sizes

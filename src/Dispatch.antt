-- ===== src/Dispatch.antt =====
-- hsm-core/src/dispatch.rs: the device session and its management commands.
pub mod Session
pub mod Boot
pub mod Pins
pub mod Setup
pub mod Keys
pub mod Hex
pub mod Time
pub mod Reset
pub mod Handle
pub mod Sign
pub mod Lines
pub mod Keeps
pub mod Signing
pub mod Window
pub mod Issued
pub mod LineSafety
pub mod Runs
pub mod Leaves
pub mod PinRuns
pub mod Frames
pub mod Safety
pub mod Quiet
pub mod KeySafety
pub mod ResetSafety
pub mod Commands
pub mod Lockout

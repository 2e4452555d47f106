-- ===== src/Firmware.antt =====
-- hsm-fw/src: the firmware's own logic, over what its drivers do.
pub mod Otp
pub mod FlashHal
pub mod Led
pub mod Usb
pub mod Start
pub mod Running
pub mod Sources

-- ===== src/Tests.antt =====
-- The theorems at concrete devices.
mod Devices
mod Parts
mod Signing
mod Certificates
mod Flash
mod Firmware
mod Board
mod Simulated

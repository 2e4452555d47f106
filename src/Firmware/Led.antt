-- ===== src/Firmware/Led.antt =====
-- hsm-fw/src/led.rs: the color of the status light.
use picosignet.Prelude.{ℕ}
use picosignet.Dispatch.Session.{
  DeviceState, uninitialized, dev_ready, prod_locked, prod_ready, locked_out,
}

pub record Rgb8 : Type 0 where
  pub r : ℕ
  pub g : ℕ
  pub b : ℕ

abbrev pub blue : Rgb8
blue = record { r = 0; g = 0; b = 60 }

abbrev pub green : Rgb8
green = record { r = 0; g = 60; b = 0 }

abbrev pub amber : Rgb8
amber = record { r = 70; g = 28; b = 0 }

abbrev pub red : Rgb8
red = record { r = 80; g = 0; b = 0 }

abbrev pub busy : Rgb8
busy = record { r = 40; g = 40; b = 40 }

unfoldable pub color_for : DeviceState → Rgb8
color_for uninitialized = blue
color_for dev_ready = green
color_for prod_ready = green
color_for prod_locked = amber
color_for locked_out = red

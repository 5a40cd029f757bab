-- ===== src/Kbd.antt =====
-- modules-drivers/picocalc_keyboard_stm_mod/picocalc_kbd.c: the keyboard driver.
pub mod Phys
pub mod Tables
pub mod Context
pub mod Backlight
pub mod Mouse
pub mod Dispatch
pub mod Worker
pub mod Sysfs
pub mod Probe
pub mod Keymap
mod Examples

-- ===== src/KbdOld.antt =====
-- modules-drivers/picocalc_keyboard_old(for v1.2 BIOS)/: the keyboard driver for the older firmware.
pub mod Codes
pub mod Context
pub mod Fn
pub mod Report
pub mod Worker
pub mod Sysfs
pub mod Probe
mod Examples

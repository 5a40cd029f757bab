-- ===== src/Fw.antt =====
-- modules-drivers/picocalc_keyboard_stm_mod/picocalc_keyboard_stm: the firmware of the keyboard's
-- controller, a microcontroller that scans the keys and answers the driver over I2C.
pub mod PowerOn
pub mod Fifo
pub mod State
pub mod Regs
pub mod Backlight
pub mod Bus
pub mod Entries
pub mod Keys
pub mod Items
pub mod Scan
pub mod Events
pub mod Serves
pub mod Loop
pub mod Power
pub mod Setup

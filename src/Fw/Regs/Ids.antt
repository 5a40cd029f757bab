-- ===== src/Fw/Regs/Ids.antt =====
-- enum reg_id of reg.h and the bits of the configuration and interrupt registers.
use picocalc_ubuntu_kernel.Prelude.{ℕ}

abbrev pub reg_id_ver : ℕ
reg_id_ver = 1

abbrev pub reg_id_cfg : ℕ
reg_id_cfg = 2

abbrev pub reg_id_int : ℕ
reg_id_int = 3

abbrev pub reg_id_key : ℕ
reg_id_key = 4

abbrev pub reg_id_bkl : ℕ
reg_id_bkl = 5

abbrev pub reg_id_deb : ℕ
reg_id_deb = 6

abbrev pub reg_id_frq : ℕ
reg_id_frq = 7

abbrev pub reg_id_rst : ℕ
reg_id_rst = 8

abbrev pub reg_id_fif : ℕ
reg_id_fif = 9

abbrev pub reg_id_bk2 : ℕ
reg_id_bk2 = 10

abbrev pub reg_id_bat : ℕ
reg_id_bat = 11

abbrev pub reg_id_c64_mtx : ℕ
reg_id_c64_mtx = 12

abbrev pub reg_id_c64_js : ℕ
reg_id_c64_js = 13

abbrev pub reg_id_off : ℕ
reg_id_off = 14

abbrev pub reg_id_led : ℕ
reg_id_led = 15

abbrev pub cfg_overflow_on : ℕ
cfg_overflow_on = 1

abbrev pub cfg_overflow_int : ℕ
cfg_overflow_int = 2

abbrev pub cfg_capslock_int : ℕ
cfg_capslock_int = 4

abbrev pub cfg_numlock_int : ℕ
cfg_numlock_int = 8

abbrev pub cfg_key_int : ℕ
cfg_key_int = 16

abbrev pub cfg_report_mods : ℕ
cfg_report_mods = 64

abbrev pub cfg_use_mods : ℕ
cfg_use_mods = 128

abbrev pub int_overflow : ℕ
int_overflow = 1

abbrev pub int_capslock : ℕ
int_capslock = 2

abbrev pub int_numlock : ℕ
int_numlock = 4

abbrev pub int_key : ℕ
int_key = 8

abbrev pub led_driver_ctrl : ℕ
led_driver_ctrl = 128

abbrev pub led_orange_mask : ℕ
led_orange_mask = 14

abbrev pub led_green_mask : ℕ
led_green_mask = 1

abbrev pub key_capslock_bit : ℕ
key_capslock_bit = 32

abbrev pub key_numlock_bit : ℕ
key_numlock_bit = 64

abbrev pub lcd_backlight_step : ℕ
lcd_backlight_step = 16

abbrev pub kbd_backlight_step : ℕ
kbd_backlight_step = 32

abbrev pub bios_version : ℕ
bios_version = 32

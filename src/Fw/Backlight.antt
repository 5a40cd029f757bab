-- ===== src/Fw/Backlight.antt =====
-- backlight.ino. A brightness step is an `int`, and `/` rounds towards zero.
pub mod Levels
use picocalc_ubuntu_kernel.Fw.Regs.Ids.{
  kbd_backlight_step, lcd_backlight_step, reg_id_bk2, reg_id_bkl,
}
use picocalc_ubuntu_kernel.Fw.Regs.{reg_get_value, reg_set_value}
use picocalc_ubuntu_kernel.Prelude.{ℕ, ◌-◌, if◌then◌else◌}
use picocalc_ubuntu_kernel.Prelude.Int.{ℤ, pos, ◌+ℤ◌, ◌*ℤ◌, ltb_ℤ, div_trunc, pos_part}
use picocalc_ubuntu_kernel.Fw.State.{Firmware, act, analog_write, pa8, pc8}

-- `( (val + v) / step ) * step`
unfoldable pub stepped : ℕ → ℤ → ℕ → ℤ
stepped val v step = div_trunc (pos val +ℤ v) step *ℤ pos step

unfoldable pub lcd_level : ℕ → ℤ → ℕ
lcd_level val v =
    let x = stepped val v lcd_backlight_step in
    if ltb_ℤ x (pos lcd_backlight_step)
    then lcd_backlight_step
    else if ltb_ℤ (pos 240) x
    then 240
    else pos_part x

unfoldable pub kbd_level : ℕ → ℤ → ℕ
kbd_level val v =
    let x = stepped val v kbd_backlight_step in
    if ltb_ℤ x (pos kbd_backlight_step) then 0 else if ltb_ℤ (pos 240) x then 0 else pos_part x

unfoldable pub lcd_backlight_update : ℤ → Firmware → Firmware
lcd_backlight_update v s =
    let val = lcd_level (reg_get_value reg_id_bkl s) v in
    reg_set_value reg_id_bkl val (act (analog_write pa8 val) s)

unfoldable pub kbd_backlight_update : ℤ → Firmware → Firmware
kbd_backlight_update v s =
    let val = kbd_level (reg_get_value reg_id_bk2 s) v in
    reg_set_value reg_id_bk2 val (act (analog_write pc8 val) s)

unfoldable pub lcd_backlight_update_reg : Firmware → Firmware
lcd_backlight_update_reg s = act (analog_write pa8 (reg_get_value reg_id_bkl s)) s

-- For a run on concrete levels.
unfoldable pub run_levels : Unit {0}
unfolding stepped lcd_level kbd_level ◌+ℤ◌ ◌*ℤ◌ div_trunc
run_levels = tt

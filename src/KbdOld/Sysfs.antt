-- ===== src/KbdOld/Sysfs.antt =====
-- The sysfs entries of picocalc_kbd.c for the v1.2 firmware. The global `g_ctx` is none when it is
-- NULL; the text of an entry is what kstrtoint, a parameter, makes of it; a show is modelled by the
-- number that it prints.
pub mod Same
use picocalc_ubuntu_kernel.Prelude.{
  ℕ, true, false, Option, if◌then◌else◌, some, none, ◌-◌, ◌||◌, ◌/◌, ltb,
}
use picocalc_ubuntu_kernel.Prelude.Int.{ℤ, pos, negsuc, ltb_ℤ}
use picocalc_ubuntu_kernel.Platform.{Platform, Ret, value, failure, map_ret, einval}
use picocalc_ubuntu_kernel.Kbd.Sysfs.{to_u8}
use picocalc_ubuntu_kernel.KbdOld.Context.{World, kbd_read_i2c_2u8, kbd_write_i2c_u8}

abbrev pub reg_id_bat : ℕ
reg_id_bat = 0x0b

abbrev pub reg_id_bkl : ℕ
reg_id_bkl = 0x05

abbrev pub reg_id_bk2 : ℕ
reg_id_bk2 = 0x0a

abbrev pub Global : Type 0 → Type 0
Global D = Option (World D)

module _ {D : Type 0} (p : Platform D) where
  unfoldable pub read_battery_percent : Global D → Ret ℕ × Global D
  read_battery_percent none = (failure einval, none)
  read_battery_percent (some w) =
      let (r, w') = kbd_read_i2c_2u8 p reg_id_bat w in (map_ret (λ b. b.1) r, some w')

  unfoldable pub battery_percent_show : Global D → Ret ℕ × Global D
  unfolding read_battery_percent
  battery_percent_show g = read_battery_percent g

  -- Milliseconds since the last key, or -1.
  unfoldable pub last_keypress_show : Global D → ℤ × Global D
  last_keypress_show none = (negsuc 0, none)
  last_keypress_show (some w) =
      let (now, d) = p.ktime w.dev in
      let ago = pos ((now - w.ctx.last_keypress_at) / 1000000) in
      (if ltb w.ctx.last_keypress_at now then ago else negsuc 0, some (record w { dev = d }))

module _ {Buf : Type 0} (kstrtoint : Buf → Ret ℤ) where
  unfoldable pub parse_u8 : Buf → Ret ℤ
  parse_u8 buf = elim (kstrtoint buf) [
    | failure e ↦ failure einval
    | value v ↦ if ltb_ℤ v (pos 0) || ltb_ℤ (pos 255) v then failure einval else value v
  ]

  module _ {D : Type 0} (p : Platform D) where
    -- The write's own result is not looked at.
    unfoldable pub parse_and_write_i2c_u8 : Buf → ℕ → ℕ → Global D → Ret ℕ × Global D
    unfolding parse_u8
    parse_and_write_i2c_u8 buf count reg g = elim (parse_u8 buf) [
      | failure e ↦ (failure einval, g)
      | value v ↦ elim g [
        | none ↦ (value count, none)
        | some w ↦ (value count, some (kbd_write_i2c_u8 p reg (to_u8 v) w).1)
      ]
    ]

    unfoldable pub keyboard_backlight_store : Buf → ℕ → Global D → Ret ℕ × Global D
    unfolding parse_and_write_i2c_u8
    keyboard_backlight_store buf count g = parse_and_write_i2c_u8 buf count reg_id_bk2 g

    unfoldable pub screen_backlight_store : Buf → ℕ → Global D → Ret ℕ × Global D
    unfolding parse_and_write_i2c_u8
    screen_backlight_store buf count g = parse_and_write_i2c_u8 buf count reg_id_bkl g

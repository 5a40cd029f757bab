-- ===== src/KbdOld/Sysfs/Same.antt =====
-- The battery and backlight files of the v1.2 driver beside those of the newer driver.
use picocalc_ubuntu_kernel.Prelude.{List, Option, none, some, ℕ, ◌≡◌, refl, arith}
use picocalc_ubuntu_kernel.Platform.{Platform, Ret}
use picocalc_ubuntu_kernel.Prelude.Int.{ℤ}
use picocalc_ubuntu_kernel.Input.{Effect}
use picocalc_ubuntu_kernel.KbdOld.Sysfs as Old
use picocalc_ubuntu_kernel.Kbd.Sysfs as New
use picocalc_ubuntu_kernel.KbdOld.Context as OldBus
use picocalc_ubuntu_kernel.Kbd.Context as NewBus

module _ {D : Type 0} where
  -- The machine and the calls made, which both drivers have; none where `g_ctx` is NULL.
  abbrev pub seen_old : Old.Global D → Option (D × List Effect)
  seen_old none = none
  seen_old (some w) = some (w.dev, w.out)

  abbrev pub seen_new : New.Global D → Option (D × List Effect)
  seen_new none = none
  seen_new (some w) = some (w.dev, w.out)

  -- The same result, and the same machine and calls behind it.
  abbrev pub SameAnswer : Ret ℕ × Old.Global D → Ret ℕ × New.Global D → Type 0
  SameAnswer (r, old) (r', new) = (r ≡ r') × (seen_old old ≡ seen_new new)

module _ {Buf : Type 0} (kstrtoint : Buf → Ret ℤ) {D : Type 0} (p : Platform D) where
  write_agrees :
      (buf : Buf) (count reg : ℕ) (old : Old.Global D) (new : New.Global D)
      → seen_old old ≡ seen_new new
      → SameAnswer
          (Old.parse_and_write_i2c_u8 kstrtoint p buf count reg old)
          (New.parse_and_write_i2c_u8 kstrtoint p buf count reg new)
  unfolding Old.parse_and_write_i2c_u8 New.parse_and_write_i2c_u8 OldBus.kbd_write_i2c_u8
      NewBus.kbd_write_i2c_u8 New.checked
  write_agrees buf count reg none none same = ground arith
  write_agrees buf count reg (some w) (some w') same = ground (arith, same)
  write_agrees buf count reg none (some w') same = absurd (ground (arith, same))
  write_agrees buf count reg (some w) none same = absurd (ground (arith, same))

  battery_agrees :
      (old : Old.Global D) (new : New.Global D)
      → seen_old old ≡ seen_new new
      → SameAnswer (Old.battery_percent_show p old) (New.battery_percent_show p new)
  unfolding Old.battery_percent_show New.battery_percent_show OldBus.kbd_read_i2c_2u8
      NewBus.kbd_read_i2c_2u8
  battery_agrees none none same = (refl, refl)
  battery_agrees (some w) (some w') same = ground (arith, same)
  battery_agrees none (some w') same = absurd (ground (arith, same))
  battery_agrees (some w) none same = absurd (ground (arith, same))

  -- When both drivers have their contexts over the same machine with the same calls made, or neither
  -- has one, a text written to either backlight file gives the same result and the same calls of the
  -- bus under both drivers, whatever number it holds or none, and so does a reading of the battery.
  pub files_agree :
      (buf : Buf) (count : ℕ) (old : Old.Global D) (new : New.Global D)
      → seen_old old ≡ seen_new new
      → SameAnswer
          (Old.keyboard_backlight_store kstrtoint p buf count old)
          (New.keyboard_backlight_store kstrtoint p buf count new)
        × SameAnswer
            (Old.screen_backlight_store kstrtoint p buf count old)
            (New.screen_backlight_store kstrtoint p buf count new)
        × SameAnswer (Old.battery_percent_show p old) (New.battery_percent_show p new)
  unfolding Old.keyboard_backlight_store New.keyboard_backlight_store Old.screen_backlight_store
      New.screen_backlight_store
  files_agree buf count old new same = (
    write_agrees buf count 0x0a old new same,
    write_agrees buf count 0x05 old new same,
    battery_agrees old new same,
  )

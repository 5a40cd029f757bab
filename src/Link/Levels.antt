-- ===== src/Link/Levels.antt =====
-- The backlight levels between the driver and the firmware.
use picocalc_ubuntu_kernel.Kbd.Tables.{screen_bkl_up, screen_bkl_down}
use picocalc_ubuntu_kernel.Kbd.Dispatch.{fn_action_run}
use picocalc_ubuntu_kernel.Fw.Backlight.Levels.{lcd_level_lem, kbd_level_lem}
use picocalc_ubuntu_kernel.Prelude.Int.{pos, ℤ, negsuc}
use picocalc_ubuntu_kernel.Kbd.Backlight.{reg_id_bkl, reg_id_bk2, screen_backlight_adjust, adjusted}
use picocalc_ubuntu_kernel.Prelude.{
  refl, ◌<◌, ◌≡◌, if◌then◌else◌, ◌+◌, ltb, ◌*◌, ◌/◌, ◌%◌, ◌∙◌, ap, arith, all_below, ◌==◌, true,
  all_below_sound,
}
use picocalc_ubuntu_kernel.Fw.State.{Firmware}
use picocalc_ubuntu_kernel.Fw.Regs.{reg_get_value, reg_set_value}
use picocalc_ubuntu_kernel.Fw.Backlight.{
  lcd_backlight_update, kbd_backlight_update, kbd_level, lcd_level, run_levels,
}
use picocalc_ubuntu_kernel.Fw.Bus.{receive_event, rcv_loop, command, plain_register, request_event}
use picocalc_ubuntu_kernel.Link.{controller, value}
use picocalc_ubuntu_kernel.Kbd.Context.{kbd_read_reg, kbd_write_i2c_u8, kbd_read_i2c_2u8, World}
use picocalc_ubuntu_kernel.Prelude.{ℕ}

-- What becomes of a level that the driver read and changed.
abbrev after : ℕ → ℤ → ℕ
after level delta = lcd_level (adjusted ((5 + 256 * level) / 256 % 256) delta) (pos 0)

up_table :
    (n : ℕ)
    → n < 15
    → (after (16 * (n + 1)) (pos 16) == 16 * (if ltb n 14 then n + 2 else 1)) ≡ true
unfolding all_below run_levels adjusted
up_table n h =
    all_below_sound 15 (λ k. after (16 * (k + 1)) (pos 16) == 16 * (if ltb k 14 then k + 2 else 1))
      n refl h

down_table :
    (n : ℕ) → n < 15 → (after (16 * (n + 1)) (negsuc 15) == 16 * (if ltb 0 n then n else 1)) ≡ true
unfolding all_below run_levels adjusted
down_table n h =
    all_below_sound 15 (λ k. after (16 * (k + 1)) (negsuc 15) == 16 * (if ltb 0 k then k else 1)) n
      refl h

module _ {K : Type 0} (tick : K → ℕ × K) (stack : ℕ × ℕ) where
  -- The driver's write and its reading of one of the two backlight registers.
  bkl_written :
      (v : ℕ) (w : World (Firmware × K))
      → reg_get_value reg_id_bkl (kbd_write_i2c_u8 (controller tick stack) reg_id_bkl v w).1.dev.0
        ≡ lcd_level v (pos 0)
  unfolding kbd_write_i2c_u8 controller receive_event rcv_loop command plain_register
      lcd_backlight_update reg_get_value reg_set_value
  bkl_written v w = refl

  bkl_read :
      (w : World (Firmware × K))
      → (kbd_read_reg (controller tick stack) reg_id_bkl w).0
        ≡ value ((5 + 256 * reg_get_value reg_id_bkl w.dev.0) / 256 % 256)
  unfolding kbd_read_reg kbd_read_i2c_2u8 controller receive_event rcv_loop command plain_register
      request_event reg_get_value
  bkl_read w = refl

  bk2_written :
      (v : ℕ) (w : World (Firmware × K))
      → reg_get_value reg_id_bk2 (kbd_write_i2c_u8 (controller tick stack) reg_id_bk2 v w).1.dev.0
        ≡ kbd_level v (pos 0)
  unfolding kbd_write_i2c_u8 controller receive_event rcv_loop command plain_register
      kbd_backlight_update reg_get_value reg_set_value
  bk2_written v w = refl

  bk2_read :
      (w : World (Firmware × K))
      → (kbd_read_reg (controller tick stack) reg_id_bk2 w).0
        ≡ value ((10 + 256 * reg_get_value reg_id_bk2 w.dev.0) / 256 % 256)
  unfolding kbd_read_reg kbd_read_i2c_2u8 controller receive_event rcv_loop command plain_register
      request_event reg_get_value
  bk2_read w = refl

  -- A level that the driver writes for the screen is read back as it was if it is a multiple of 16 and
  -- not 0, else rounded down to such a level, 16 at least; for the keyboard, rounded down to a
  -- multiple of 32.
  pub level_roundtrip :
      (v : ℕ) (w : World (Firmware × K))
      → v < 256
      → let p = controller tick stack in
        ((kbd_read_reg p reg_id_bkl (kbd_write_i2c_u8 p reg_id_bkl v w).1).0
          ≡ value (if ltb v 16 then 16 else v / 16 * 16))
        × ((kbd_read_reg p reg_id_bk2 (kbd_write_i2c_u8 p reg_id_bk2 v w).1).0
            ≡ value (v / 32 * 32))
  level_roundtrip v w h = (
    bkl_read _
        ∙ ap value (
            ap (λ x. (5 + 256 * x) / 256 % 256) (bkl_written v w ∙ lcd_level_lem v h)
            ∙ ground arith),
    bk2_read _
        ∙ ap value (
            ap (λ x. (10 + 256 * x) / 256 % 256) (bk2_written v w ∙ kbd_level_lem v h)
            ∙ ground arith),
  )

  adjust_applied :
      (delta : ℤ) (w : World (Firmware × K))
      → reg_get_value reg_id_bkl (screen_backlight_adjust (controller tick stack) delta w).dev.0
        ≡ lcd_level
            (adjusted ((5 + 256 * reg_get_value reg_id_bkl w.dev.0) / 256 % 256) delta)
            (pos 0)
  unfolding screen_backlight_adjust kbd_read_reg kbd_read_i2c_2u8 kbd_write_i2c_u8 controller
      receive_event rcv_loop command plain_register lcd_backlight_update request_event reg_get_value
      reg_set_value
  adjust_applied delta w = refl

  -- The screen's two keys through both programs, from any of the 15 levels 16, 32, .. 240 that the
  -- firmware holds: the key for brighter brings it to the next level, but from the last one back to the
  -- first, as the driver's byte overflows there; the key for darker brings it to the level before and
  -- stays at the first one.
  pub screen_keys_step :
      (n : ℕ) (w : World (Firmware × K))
      → n < 15
      → reg_get_value reg_id_bkl w.dev.0 ≡ 16 * (n + 1)
      → let p = controller tick stack in
        (reg_get_value reg_id_bkl (fn_action_run p screen_bkl_up w).dev.0
          ≡ 16 * (if ltb n 14 then n + 2 else 1))
        × (reg_get_value reg_id_bkl (fn_action_run p screen_bkl_down w).dev.0
            ≡ 16 * (if ltb 0 n then n else 1))
  unfolding fn_action_run
  screen_keys_step n w small level = (
    adjust_applied (pos 16) w
        ∙ ap (λ x. lcd_level (adjusted ((5 + 256 * x) / 256 % 256) (pos 16)) (pos 0)) level
        ∙ ground (arith, up_table n small),
    adjust_applied (negsuc 15) w
        ∙ ap (λ x. lcd_level (adjusted ((5 + 256 * x) / 256 % 256) (negsuc 15)) (pos 0)) level
        ∙ ground (arith, down_table n small),
  )

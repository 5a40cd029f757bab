-- ===== src/Kbd/Backlight.antt =====
-- The backlight helpers of picocalc_kbd.c.
pub mod Screen
pub mod Flash
use picocalc_ubuntu_kernel.Prelude.{
  ℕ, ◌+◌, ◌-◌, ◌%◌, suc, true, false, List, [], ◌∷◌, ltb, if◌then◌else◌, get_or,
}
use picocalc_ubuntu_kernel.Prelude.Int.{ℤ, pos, negsuc}
use picocalc_ubuntu_kernel.Input.{bl_flash_work, schedule_delayed_work, cancel_delayed_work}
use picocalc_ubuntu_kernel.Platform.{Platform, value, failure}
use picocalc_ubuntu_kernel.Kbd.Context.{World, emit, on_ctx, kbd_read_reg, kbd_write_i2c_u8}

abbrev pub reg_id_bkl : ℕ
reg_id_bkl = 0x05

abbrev pub reg_id_bk2 : ℕ
reg_id_bk2 = 0x0a

abbrev pub bl_flash_ms : ℕ
bl_flash_ms = 500

abbrev pub kbd_bl_flash_val : ℕ
kbd_bl_flash_val = 240

abbrev pub screen_bl_step : ℕ
screen_bl_step = 16

abbrev pub screen_bl_min : ℕ
screen_bl_min = 16

abbrev pub screen_bl_max : ℕ
screen_bl_max = 240

abbrev pub kbd_bl_levels : List ℕ
kbd_bl_levels = 0 ∷ 80 ∷ 140 ∷ 200 ∷ []

-- `uint8_t val; val += delta;` with an `int` delta.
unfoldable pub add_u8 : ℕ → ℤ → ℕ
add_u8 val (pos n) = (val + n) % 256
add_u8 val (negsuc n) = (val + (256 - suc n % 256)) % 256

-- The step and the two clamps of `screen_backlight_adjust`.
unfoldable pub adjusted : ℕ → ℤ → ℕ
unfolding add_u8
adjusted val delta =
    let v = add_u8 val delta in
    let v' = if ltb v screen_bl_min then screen_bl_min else v in
    if ltb screen_bl_max v' then screen_bl_max else v'

module _ {D : Type 0} (p : Platform D) where
  unfoldable pub bl_flash_restore : World D → World D
  unfolding kbd_write_i2c_u8
  bl_flash_restore w =
      let w' = (kbd_write_i2c_u8 p reg_id_bk2 w.ctx.saved_kbd_backlight w).1 in
      on_ctx (λ c. record c { bl_flash_active = false }) w'

  -- `kbd_read_reg(.., &ctx->saved_kbd_backlight)`: a failed read leaves the saved level.
  unfoldable pub save_backlight : World D → World D
  unfolding kbd_read_reg
  save_backlight w =
      let (r, w') = kbd_read_reg p reg_id_bk2 w in
      elim r [ value v ↦ on_ctx (λ c. record c { saved_kbd_backlight = v }) w' | failure e ↦ w' ]

  unfoldable pub trigger_backlight_flash : World D → World D
  unfolding save_backlight kbd_write_i2c_u8
  trigger_backlight_flash w =
      let w1 = emit (cancel_delayed_work bl_flash_work) w in
      let w2 = if w1.ctx.bl_flash_active then w1 else save_backlight w1 in
      let w3 = (kbd_write_i2c_u8 p reg_id_bk2 kbd_bl_flash_val w2).1 in
      let w4 = on_ctx (λ c. record c { bl_flash_active = true }) w3 in
      emit (schedule_delayed_work bl_flash_work bl_flash_ms) w4

  unfoldable pub screen_backlight_adjust : ℤ → World D → World D
  unfolding kbd_read_reg kbd_write_i2c_u8 adjusted
  screen_backlight_adjust delta w =
      let (r, w') = kbd_read_reg p reg_id_bkl w in
      elim r [ value v ↦ (kbd_write_i2c_u8 p reg_id_bkl (adjusted v delta) w').1 | failure e ↦ w' ]

  unfoldable pub kbd_backlight_cycle : World D → World D
  unfolding kbd_write_i2c_u8
  kbd_backlight_cycle w =
      let idx = suc w.ctx.kbd_bl_idx % 4 in
      let w' = on_ctx (λ c. record c { kbd_bl_idx = idx }) w in
      (kbd_write_i2c_u8 p reg_id_bk2 (get_or kbd_bl_levels idx 0) w').1

-- ===== src/Kbd/Backlight/Flash.antt =====
-- The keyboard backlight of picocalc_kbd.c: the flash that marks a mode switch, and the level cycle.
use picocalc_ubuntu_kernel.Prelude.{
  ℕ, zero, suc, ◌+◌, ◌/◌, ◌%◌, ◌<◌, ◌≡◌, refl, ◌∷◌, true, false, get_or, arith, ◌∙◌,
}
use picocalc_ubuntu_kernel.Input.{smbus_write}
use picocalc_ubuntu_kernel.Platform.{Platform, value}
use picocalc_ubuntu_kernel.Kbd.Context.{World}
use picocalc_ubuntu_kernel.Kbd.Backlight.{
  trigger_backlight_flash, bl_flash_restore, kbd_backlight_cycle, reg_id_bk2, kbd_bl_levels,
}

module _ {D : Type 0} (p : Platform D) where
  -- The flash is triggered n times before its work runs.
  pub triggers : ℕ → World D → World D
  triggers zero w = w
  triggers (suc n) w = triggers n (trigger_backlight_flash p w)

  trigger-active : (w : World D) → (trigger_backlight_flash p w).ctx.bl_flash_active ≡ true
  unfolding trigger_backlight_flash
  trigger-active w = ground arith

  trigger-saved :
      (w : World D)
      → w.ctx.bl_flash_active ≡ true
      → (trigger_backlight_flash p w).ctx.saved_kbd_backlight ≡ w.ctx.saved_kbd_backlight
  unfolding trigger_backlight_flash
  trigger-saved w h = ground arith

  trigger-first :
      (r : ℕ) (w : World D)
      → w.ctx.bl_flash_active ≡ false
      → (p.read_word w.dev reg_id_bk2).0 ≡ value r
      → (trigger_backlight_flash p w).ctx.saved_kbd_backlight ≡ r / 256 % 256
  unfolding trigger_backlight_flash
  trigger-first r w idle read = ground arith

  triggers-saved :
      (n : ℕ) (w : World D)
      → w.ctx.bl_flash_active ≡ true
      → (triggers n w).ctx.saved_kbd_backlight ≡ w.ctx.saved_kbd_backlight
  unfolding triggers
  triggers-saved zero w h = refl
  triggers-saved (suc n) w h =
      triggers-saved n (trigger_backlight_flash p w) (trigger-active w) ∙ trigger-saved w h

  bl_flash_restore_lem :
      (w : World D)
      → ((bl_flash_restore p w).out ≡ smbus_write 0x8a w.ctx.saved_kbd_backlight ∷ w.out)
        × ((bl_flash_restore p w).ctx.bl_flash_active ≡ false)
  unfolding bl_flash_restore
  bl_flash_restore_lem w = ground arith

  -- However often the mode is switched while the keyboard light flashes, the delayed work writes back
  -- the level that was read before the first flash, and ends the flash.
  pub flash_restores :
      (n r : ℕ) (w : World D)
      → w.ctx.bl_flash_active ≡ false
      → (p.read_word w.dev reg_id_bk2).0 ≡ value r
      → let w' = triggers (suc n) w in
        ((bl_flash_restore p w').out ≡ smbus_write 0x8a (r / 256 % 256) ∷ w'.out)
        × ((bl_flash_restore p w').ctx.bl_flash_active ≡ false)
  unfolding triggers
  flash_restores n r w idle read =
      let w1 = trigger_backlight_flash p w in
      let saved = triggers-saved n w1 (trigger-active w) ∙ trigger-first r w idle read in
      let done = bl_flash_restore_lem (triggers n w1) in (rw (← saved) done.0, done.1)

  pub cycles : ℕ → World D → World D
  cycles zero w = w
  cycles (suc n) w = kbd_backlight_cycle p (cycles n w)

  cycles-idx :
      (n : ℕ) (w : World D)
      → w.ctx.kbd_bl_idx < 4
      → (cycles n w).ctx.kbd_bl_idx ≡ (w.ctx.kbd_bl_idx + n) % 4
  unfolding cycles kbd_backlight_cycle
  cycles-idx zero w h = omega arith
  cycles-idx (suc n) w h = omega (arith, cycles-idx n w h)

  -- After n + 1 presses of the cycle key the level last written is the (n + 1)-th after the one
  -- before, counted round the four levels.
  pub cycle_levels :
      (n : ℕ) (w : World D)
      → w.ctx.kbd_bl_idx < 4
      → let i = (w.ctx.kbd_bl_idx + suc n) % 4 in
        ((cycles (suc n) w).ctx.kbd_bl_idx ≡ i)
        × ((cycles (suc n) w).out ≡ smbus_write 0x8a (get_or kbd_bl_levels i 0) ∷ (cycles n w).out)
  unfolding cycles kbd_backlight_cycle
  cycle_levels n w h = let e = step n in (e, rw e)
    where
      step : (n : ℕ) → suc (cycles n w).ctx.kbd_bl_idx % 4 ≡ (w.ctx.kbd_bl_idx + suc n) % 4
      step n = omega (arith, cycles-idx n w h)

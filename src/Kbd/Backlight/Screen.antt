-- ===== src/Kbd/Backlight/Screen.antt =====
-- The screen backlight steps of picocalc_kbd.c.
use Prim.Native.Nat.{min, max}
use picocalc_ubuntu_kernel.Prelude.{
  inl, inr, ltb, if◌then◌else◌, ℕ, ◌+◌, ◌-◌, ◌/◌, ◌%◌, ◌≤◌, ◌≡◌, ◌⊎◌, ◌∷◌, arith,
}
use picocalc_ubuntu_kernel.Prelude.Int.{ℤ, pos, negsuc}
use picocalc_ubuntu_kernel.Input.{smbus_write}
use picocalc_ubuntu_kernel.Platform.{Ret-cases, Platform, value, failure}
use picocalc_ubuntu_kernel.Kbd.Context.{World}
use picocalc_ubuntu_kernel.Kbd.Backlight.{
  adjusted, screen_backlight_adjust, reg_id_bkl, screen_bl_min, screen_bl_max,
}

adjusted_bounds :
    (v : ℕ) (delta : ℤ) → (screen_bl_min ≤ adjusted v delta) × (adjusted v delta ≤ screen_bl_max)
unfolding adjusted
adjusted_bounds v delta = ground arith

module _ {D : Type 0} (p : Platform D) where
  -- Whatever level the controller reports, one step writes one level between SCREEN_BL_MIN and
  -- SCREEN_BL_MAX to the register (with the write bit); after a failed read it writes nothing.
  pub screen_step_in_range :
      (delta : ℤ) (w : World D)
      → (((e : ℕ) × ((p.read_word w.dev reg_id_bkl).0 ≡ failure e))
          × ((screen_backlight_adjust p delta w).out ≡ w.out))
        ⊎ ((b : ℕ) × ((screen_backlight_adjust p delta w).out ≡ smbus_write 0x85 b ∷ w.out)
            × (screen_bl_min ≤ b)
            × (b ≤ screen_bl_max))
  unfolding screen_backlight_adjust
  screen_step_in_range delta w = elim (Ret-cases (p.read_word w.dev reg_id_bkl).0) [
    | inl (r, e) ↦
        let b = adjusted (r / 256 % 256) delta in
        let bounds = adjusted_bounds (r / 256 % 256) delta in
        inr (b, ground arith, bounds.0, bounds.1)
    | inr (x, e) ↦ inl ((x, e), ground arith)
  ]

  -- A step up from a level below 240 goes up by 16, to 240 at most. From 240 or more it wraps in the
  -- byte, to the dimmest level.
  pub screen_step_up :
      (r : ℕ) (w : World D)
      → (p.read_word w.dev reg_id_bkl).0 ≡ value r
      → let v = r / 256 % 256 in
        (screen_backlight_adjust p (pos 16) w).out
        ≡ smbus_write 0x85 (if ltb v 240 then min (v + 16) 240 else 16) ∷ w.out
  unfolding screen_backlight_adjust adjusted
  screen_step_up r w h = ground arith

  -- A step down from a level of 16 or more goes down by 16, to 16 at least. From a lower one it wraps
  -- in the byte, to the brightest level.
  pub screen_step_down :
      (r : ℕ) (w : World D)
      → (p.read_word w.dev reg_id_bkl).0 ≡ value r
      → let v = r / 256 % 256 in
        (screen_backlight_adjust p (negsuc 15) w).out
        ≡ smbus_write 0x85 (if ltb v 16 then 240 else max (v - 16) 16) ∷ w.out
  unfolding screen_backlight_adjust adjusted
  screen_step_down r w h = ground arith

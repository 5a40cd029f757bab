-- ===== src/Fw/Backlight/Levels.antt =====
-- The levels that the firmware stores for the levels that are asked for.
use picocalc_ubuntu_kernel.Fw.Backlight.{run_levels, kbd_level, lcd_level, pos}
use picocalc_ubuntu_kernel.Prelude.{
  refl, all_below, ℕ, ◌/◌, ◌<◌, ◌*◌, ◌==◌, ◌≡◌, arith, if◌then◌else◌, true, all_below_sound, ltb,
}

-- A level without its remainder by the step.
abbrev pub floor_to : ℕ → ℕ → ℕ
floor_to step v = v / step * step

lcd_table :
    all_below 256 (λ v. lcd_level v (pos 0) == (if ltb v 16 then 16 else floor_to 16 v)) ≡ true
unfolding all_below run_levels
lcd_table = refl

kbd_table : all_below 256 (λ v. kbd_level v (pos 0) == floor_to 32 v) ≡ true
unfolding all_below run_levels
kbd_table = refl

-- A level that is asked for is stored rounded down to the step, the panel's never below 16.
pub lcd_level_lem :
    (v : ℕ) → v < 256 → lcd_level v (pos 0) ≡ (if ltb v 16 then 16 else floor_to 16 v)
lcd_level_lem v h = ground (
  arith,
  all_below_sound 256 (λ u. lcd_level u (pos 0) == (if ltb u 16 then 16 else floor_to 16 u)) v
      lcd_table h,
)

pub kbd_level_lem : (v : ℕ) → v < 256 → kbd_level v (pos 0) ≡ floor_to 32 v
kbd_level_lem v h =
    ground (arith, all_below_sound 256 (λ u. kbd_level u (pos 0) == floor_to 32 u) v kbd_table h)

-- ===== src/Kbd/Mouse/Speed.antt =====
-- The acceleration ramp of the mouse movement.
use picocalc_ubuntu_kernel.Prelude.{
  Bool-cases, inl, inr, ℕ, ◌+◌, ◌*◌, ◌/◌, ◌^◌, ◌≤◌, ◌<◌, ◌≡◌, ltb, if◌then◌else◌, arith,
}
use picocalc_ubuntu_kernel.Prelude.Int.{
  pos, pos_part, int32, sub_pos, int32_pos, int32_mul, int32_add, div_trunc, ◌+ℤ◌, ◌-ℤ◌, ◌*ℤ◌,
}
use picocalc_ubuntu_kernel.Kbd.Mouse.{ramp_speed}

part-le : (rise t ramp : ℕ) → t < ramp → rise * t / ramp ≤ rise
part-le rise t ramp h = grind arith

ramp_below :
    (base rise ramp t : ℕ)
    → t < ramp
    → base + rise < 2 ^ 31
    → rise * t < 2 ^ 31
    → int32 (
        pos base
        +ℤ div_trunc (int32 (int32 (pos (base + rise) -ℤ pos base) *ℤ pos t)) (pos_part (pos ramp)))
      ≡ pos (base + rise * t / ramp)
unfolding div_trunc
ramp_below base rise ramp t h b o =
    rw (sub_pos base rise, int32_pos rise (omega arith), int32_mul rise t o)
      (int32_add base (rise * t / ramp) (omega (arith, part-le rise t ramp h)))

-- The ramp on numbers, where no product overflows an int: base speed at the start, growing in
-- proportion to the time, and the top speed from `ramp` on (at once if `ramp` is 0).
pub ramp_speed_lem :
    (base rise ramp t : ℕ)
    → base + rise < 2 ^ 31
    → rise * t < 2 ^ 31
    → ramp_speed (pos base) (pos (base + rise)) (pos ramp) (pos t)
      ≡ pos (if ltb t ramp then base + rise * t / ramp else base + rise)
unfolding ramp_speed
ramp_speed_lem base rise ramp t b o = elim (Bool-cases (ltb t ramp)) [
  | inl h ↦ ground (arith, ramp_below base rise ramp t (ground arith) b o)
  | inr h ↦ ground arith
]

part_mono : (rise t u ramp : ℕ) → t ≤ u → rise * t / ramp ≤ rise * u / ramp
part_mono rise t u ramp h = grind arith

-- Within the ramp and after it, a held direction never slows down, and its speed stays between the
-- base speed and the top speed, as long as no product overflows an int.
pub speed_grows :
    (base rise ramp t u : ℕ)
    → base + rise < 2 ^ 31
    → rise * u < 2 ^ 31
    → t ≤ u
    → (v : ℕ) × (v' : ℕ) × (ramp_speed (pos base) (pos (base + rise)) (pos ramp) (pos t) ≡ pos v)
      × (ramp_speed (pos base) (pos (base + rise)) (pos ramp) (pos u) ≡ pos v')
      × (base ≤ v)
      × (v ≤ v')
      × (v' ≤ base + rise)
speed_grows base rise ramp t u b o h = (
  if ltb t ramp then base + rise * t / ramp else base + rise,
  if ltb u ramp then base + rise * u / ramp else base + rise,
  ramp_speed_lem base rise ramp t b (smaller rise t u h o),
  ramp_speed_lem base rise ramp u b o,
  ground arith,
  ground (arith, part_mono rise t u ramp h, part-le rise t ramp),
  ground (arith, part-le rise u ramp),
)
  where
    smaller : (rise t u : ℕ) → t ≤ u → rise * u < 2 ^ 31 → rise * t < 2 ^ 31
    smaller rise t u h o = grind arith

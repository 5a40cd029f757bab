-- ===== src/Kbd/Mouse/Steps.antt =====
-- The sub-pixel arithmetic of the mouse movement: no movement is lost or made up.
use picocalc_ubuntu_kernel.Prelude.{
  ℕ, ◌+◌, ◌*◌, ◌/◌, ◌%◌, ◌^◌, ◌<◌, ◌≡◌, refl, List, [], ◌∷◌, arith,
}
use picocalc_ubuntu_kernel.Prelude.Int.{ℤ, pos, pos_part, int32, ◌+ℤ◌, ◌-ℤ◌, ◌*ℤ◌}
use picocalc_ubuntu_kernel.Kbd.Mouse.{axis_step}

-- One tick of an axis on numbers: the sum is split into whole pixels and a remainder.
axis_step-split :
    (s i : ℕ)
    → s + i < 2 ^ 31
    → axis_step (pos s) (pos i) ≡ (pos ((s + i) % 256), pos ((s + i) / 256))
unfolding axis_step int32 ◌+ℤ◌ ◌-ℤ◌ ◌*ℤ◌
axis_step-split s i h = ground arith

-- The pixels that a run of ticks reports on an axis, and the remainder that it leaves.
pub run_axis : ℤ → List ℕ → ℕ × ℤ
run_axis sub [] = (0, sub)
run_axis sub (inc ∷ incs) =
    let (sub', step_px) = axis_step sub (pos inc) in
    let (total, last) = run_axis sub' incs in (pos_part step_px + total, last)

unfoldable pub sum : List ℕ → ℕ
sum [] = 0
sum (x ∷ xs) = x + sum xs

-- From a remainder below one pixel, over any run of ticks whose increments are not negative and add up
-- to less than 2 ^ 30, the pixels reported, times 256, and the remainder left in `mouse_sub_x` or
-- `mouse_sub_y` are exactly the first remainder and the increments added up, and the remainder left is
-- again below one pixel.
pub no_drift :
    (s : ℕ) (incs : List ℕ)
    → s < 256
    → sum incs < 2 ^ 30
    → (last : ℕ) × ((run_axis (pos s) incs).1 ≡ pos last)
      × (last < 256)
      × ((run_axis (pos s) incs).0 * 256 + last ≡ s + sum incs)
unfolding run_axis sum
no_drift s [] h b = (s, refl, h, omega arith)
no_drift s (i ∷ incs) h b =
    let (last, e, small, total) = no_drift ((s + i) % 256) incs (omega arith) (omega arith) in
    let step = axis_step-split s i (omega arith) in (last, rw step e, small, rw step (omega arith))

-- ===== src/SoftPwm/Stereo.antt =====
-- The STEREO variant of src/hal/project/rk3506-mcu/src/main.c: a timer, a pin and a duty for each of the
-- two channels.
pub mod Channels
use picocalc_ubuntu_kernel.Prelude.{
  Bool, ℕ, if◌then◌else◌, true, ◌+◌, not, ◌==◌, ◌^◌, false, ◌&&◌, ◌-◌, ◌%◌,
}
use picocalc_ubuntu_kernel.SoftPwm.{Mcu}

-- left_enable, left_flag and the pin, the count and the running of the left timer; the same of the
-- right one.
pub record Stereo : Type 0 where
  pub left_enable : Bool
  pub left_flag : Bool
  pub left_level : Bool
  pub left_count : ℕ
  pub left_running : Bool
  pub right_enable : Bool
  pub right_flag : Bool
  pub right_level : Bool
  pub right_count : ℕ
  pub right_running : Bool

-- `375 - duty`, as the timer's unsigned count.
abbrev pub gap_count : ℕ → ℕ
gap_count duty = (375 + (2 ^ 32 - duty % 2 ^ 32)) % 2 ^ 32

unfoldable pub left_timer_isr : ℕ → Stereo → Stereo
left_timer_isr duty m =
    let high : Stereo = record m { left_level = true; left_count = duty } in
    let pulse : Stereo =
      if duty == 0 then record high { left_enable = false; left_level = false } else high in
    let gap : Stereo = record m { left_level = false; left_count = gap_count duty } in
    record (if m.left_flag then pulse else gap) { left_flag = not m.left_flag; left_running = true }

unfoldable pub right_timer_isr : ℕ → Stereo → Stereo
right_timer_isr duty m =
    let high : Stereo = record m { right_level = true; right_count = duty } in
    let pulse : Stereo =
      if duty == 0 then record high { right_enable = false; right_level = false } else high in
    let gap : Stereo = record m { right_level = false; right_count = gap_count duty } in
    record (if m.right_flag then pulse else gap) {
      right_flag = not m.right_flag;
      right_running = true;
    }

-- One round of main's loop, with the duties that it reads.
unfoldable pub stereo_round : ℕ → ℕ → Stereo → Stereo
stereo_round left_duty right_duty m =
    let left : Stereo =
      if not (left_duty == 0) && not m.left_enable
      then record m { left_count = left_duty; left_running = true; left_enable = true }
      else m in
    if not (right_duty == 0) && not m.right_enable
    then record left { right_count = right_duty; right_running = true; right_enable = true }
    else left

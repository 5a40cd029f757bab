-- ===== src/Kbd/Mouse.antt =====
-- The mouse movement of picocalc_kbd.c. An `int` is an integer that each operation wraps to 32 bits.
pub mod Steps
pub mod Speed
use picocalc_ubuntu_kernel.Prelude.{
  ℕ, ◌+◌, ◌-◌, ◌/◌, ◌%◌, ◌^◌, Bool, true, false, not, ◌||◌, if◌then◌else◌,
}
use picocalc_ubuntu_kernel.Prelude.Int.{
  ℤ, pos, negsuc, pos_part, ◌+ℤ◌, ◌-ℤ◌, ◌*ℤ◌, ltb_ℤ, int32, div_trunc,
}
use picocalc_ubuntu_kernel.Input.{
  Axis, rel_x, rel_y, mouse_dw, report_rel, input_sync, schedule_delayed_work, cancel_delayed_work,
}
use picocalc_ubuntu_kernel.Platform.{Platform}
use picocalc_ubuntu_kernel.Kbd.Context.{KbdCtx, Dirs, World, emit, on_ctx}

abbrev pub mouse_timer_interval_ms : ℕ
mouse_timer_interval_ms = 10

-- One direction flag, as the callers pass it.
pub data Dir : Type 0 where
  dir_left dir_right dir_up dir_down : Dir

-- `mouse_dir & dir`
abbrev pub has_dir : Dirs → Dir → Bool
has_dir ds dir_left = ds.left
has_dir ds dir_right = ds.right
has_dir ds dir_up = ds.up
has_dir ds dir_down = ds.down

-- `mouse_dir |= dir` and `mouse_dir &= ~dir`, by the value that the flag gets.
abbrev pub set_dir : Bool → Dirs → Dir → Dirs
set_dir b ds dir_left = record ds { left = b }
set_dir b ds dir_right = record ds { right = b }
set_dir b ds dir_up = record ds { up = b }
set_dir b ds dir_down = record ds { down = b }

abbrev pub no_dirs : Dirs
no_dirs = record { left = false; right = false; up = false; down = false }

-- `mouse_dir == 0`
abbrev pub is_still : Dirs → Bool
is_still ds = not (ds.left || ds.right || ds.up || ds.down)

abbrev pub goes_x : Dirs → Bool
goes_x ds = ds.left || ds.right

abbrev pub goes_y : Dirs → Bool
goes_y ds = ds.up || ds.down

-- `(flag ? 1 : -1) * n`
unfoldable pub signed_by : Bool → ℤ → ℤ
signed_by flag n = int32 ((if flag then pos 1 else negsuc 0) *ℤ n)

-- `x >> 8` of an `int`, the arithmetic shift.
unfoldable pub shr8 : ℤ → ℤ
shr8 (pos n) = pos (n / 256)
shr8 (negsuc n) = negsuc (n / 256)

-- Milliseconds between two u64 clock readings, stored in an `int`.
unfoldable pub elapsed : ℕ → ℕ → ℤ
elapsed now start = int32 (pos ((now + (2 ^ 64 - start % 2 ^ 64)) % 2 ^ 64 / 1000000))

-- Phase 2: the speed that a ramp from base to max gives.
unfoldable pub ramp_speed : ℤ → ℤ → ℤ → ℤ → ℤ
ramp_speed base top ramp accel_elapsed =
    if not (ltb_ℤ accel_elapsed ramp) || not (ltb_ℤ (pos 0) ramp)
    then top
    else int32 (base +ℤ div_trunc (int32 (int32 (top -ℤ base) *ℤ accel_elapsed)) (pos_part ramp))

-- speed * MOUSE_TIMER_INTERVAL_MS * 256 / 1000
unfoldable pub increment : ℤ → ℤ
increment speed = div_trunc (int32 (int32 (speed *ℤ pos mouse_timer_interval_ms) *ℤ pos 256)) 1000

-- One axis: the new sub-pixel remainder, and the whole pixels to report (none if not positive).
unfoldable pub axis_step : ℤ → ℤ → ℤ × ℤ
unfolding shr8
axis_step sub inc =
    let sub' = int32 (sub +ℤ inc) in
    let step_px = shr8 sub' in
    if ltb_ℤ (pos 0) step_px
    then (int32 (sub' -ℤ int32 (step_px *ℤ pos 256)), step_px)
    else (sub', pos 0)

unfoldable pub tick_speed : KbdCtx → ℤ → ℤ
tick_speed c elapsed_ms =
    ramp_speed c.mouse_base_speed c.mouse_max_speed c.mouse_accel_time_ms
      (int32 (elapsed_ms -ℤ c.mouse_start_delay_ms))

module _ {D : Type 0} where
  abbrev report_step : Axis → Bool → ℤ → World D → World D
  report_step axis flag step_px w =
      if ltb_ℤ (pos 0) step_px then emit (report_rel axis (signed_by flag step_px)) w else w

  unfoldable pub move_x : ℤ → World D → World D
  unfolding axis_step
  move_x inc w =
      let (sub, step_px) = axis_step w.ctx.mouse_sub_x inc in
      if goes_x w.ctx.mouse_dir
      then report_step rel_x w.ctx.mouse_dir.right step_px
          (on_ctx (λ c. record c { mouse_sub_x = sub }) w)
      else w

  unfoldable pub move_y : ℤ → World D → World D
  unfolding axis_step
  move_y inc w =
      let (sub, step_px) = axis_step w.ctx.mouse_sub_y inc in
      if goes_y w.ctx.mouse_dir
      then report_step rel_y w.ctx.mouse_dir.down step_px
          (on_ctx (λ c. record c { mouse_sub_y = sub }) w)
      else w

  abbrev pub schedule_mouse : World D → World D
  schedule_mouse w = emit (schedule_delayed_work mouse_dw mouse_timer_interval_ms) w

  unfoldable pub sustain : ℤ → World D → World D
  unfolding move_x move_y tick_speed
  sustain elapsed_ms w =
      let inc = increment (tick_speed w.ctx elapsed_ms) in
      schedule_mouse (emit input_sync (move_y inc (move_x inc w)))

  -- The axes that an initial jump in one direction touches.
  abbrev pub jump : Dir → World D → World D
  jump dir_left w = emit (report_rel rel_x (signed_by false w.ctx.mouse_initial_step)) w
  jump dir_right w = emit (report_rel rel_x (signed_by true w.ctx.mouse_initial_step)) w
  jump dir_up w = emit (report_rel rel_y (signed_by false w.ctx.mouse_initial_step)) w
  jump dir_down w = emit (report_rel rel_y (signed_by true w.ctx.mouse_initial_step)) w

  unfoldable pub mouse_stop_move : Dir → World D → World D
  mouse_stop_move dir w =
      let w' = on_ctx (λ c. record c { mouse_dir = set_dir false c.mouse_dir dir }) w in
      if is_still w'.ctx.mouse_dir then emit (cancel_delayed_work mouse_dw) w' else w'

module _ {D : Type 0} (p : Platform D) where
  unfoldable pub mouse_emit_rel : World D → World D
  unfolding sustain
  mouse_emit_rel w =
      let (now, d) = p.ktime w.dev in
      let w' : World D = record w { dev = d } in
      let ms = elapsed now w.ctx.mouse_start_ns in
      if is_still w.ctx.mouse_dir
      then w
      else if ltb_ℤ ms w.ctx.mouse_start_delay_ms
      then schedule_mouse w'
      else sustain ms w'

  unfoldable pub start_timer : Dir → World D → World D
  start_timer dir w =
      let (now, d) = p.ktime w.dev in
      let start = λ (c : KbdCtx). record c {
        mouse_start_ns = now;
        mouse_sub_x = pos 0;
        mouse_sub_y = pos 0;
      } in
      schedule_mouse (jump dir (on_ctx start (record w { dev = d })))

  -- `mouse_dir == dir` after the flag is set: no other flag was set before.
  unfoldable pub mouse_start_move : Dir → World D → World D
  unfolding start_timer
  mouse_start_move dir w =
      let w' = on_ctx (λ c. record c { mouse_dir = set_dir true c.mouse_dir dir }) w in
      if has_dir w.ctx.mouse_dir dir
      then w
      else if is_still (set_dir false w'.ctx.mouse_dir dir)
      then start_timer dir w'
      else w'

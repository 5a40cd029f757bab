-- ===== src/Kbd/Dispatch/Quiet.antt =====
-- The helpers that key_dispatch calls and that report no key: they leave the key slots, the modifier
-- flags and the keys that Linux holds down as they were.
use picocalc_ubuntu_kernel.Prelude.Int.{ℤ, ltb_ℤ}
use picocalc_ubuntu_kernel.Prelude.{◌≡◌, ◌∙◌, arith, if_cases}
use picocalc_ubuntu_kernel.Input.{Keycode, is_down, input_sync}
use picocalc_ubuntu_kernel.Platform.{Platform}
use picocalc_ubuntu_kernel.Kbd.Context.{World, stamp, emit}
use picocalc_ubuntu_kernel.Kbd.Tables.{FnAction, screen_bkl_down}
use picocalc_ubuntu_kernel.Kbd.Backlight.{
  screen_backlight_adjust, kbd_backlight_cycle, trigger_backlight_flash, bl_flash_restore,
}
use picocalc_ubuntu_kernel.Kbd.Mouse.{
  Dir, dir_left, mouse_start_move, mouse_stop_move, mouse_emit_rel, move_x, move_y, elapsed,
  schedule_mouse, sustain, increment, is_still, tick_speed,
}
use picocalc_ubuntu_kernel.Kbd.Dispatch.{fn_action_run}

pub record Quiet {D : Type 0} (w w' : World D) : Type 0 where
  pub slots : w'.ctx.key_state ≡ w.ctx.key_state
  pub shl : w'.ctx.phy_shl ≡ w.ctx.phy_shl
  pub shr : w'.ctx.phy_shr ≡ w.ctx.phy_shr
  pub alt : w'.ctx.phy_alt ≡ w.ctx.phy_alt
  pub ctrl : w'.ctx.phy_ctrl ≡ w.ctx.phy_ctrl
  pub reported : w'.ctx.rshift_reported ≡ w.ctx.rshift_reported
  pub held : (k : Keycode) → is_down k w'.out ≡ is_down k w.out

module _ {D : Type 0} where
  pub Quiet-trans : {u v w : World D} → Quiet u v → Quiet v w → Quiet u w
  Quiet-trans a b = record {
    slots = b.slots ∙ a.slots;
    shl = b.shl ∙ a.shl;
    shr = b.shr ∙ a.shr;
    alt = b.alt ∙ a.alt;
    ctrl = b.ctrl ∙ a.ctrl;
    reported = b.reported ∙ a.reported;
    held = λ k. b.held k ∙ a.held k;
  }

  Quiet-refl : (w : World D) → Quiet w w
  Quiet-refl w = ground arith

  pub mouse_stop_move-Quiet : (dir : Dir) (w : World D) → Quiet w (mouse_stop_move dir w)
  unfolding mouse_stop_move is_down
  mouse_stop_move-Quiet dir_left w = ground arith
  mouse_stop_move-Quiet _ w = ground arith

module _ {D : Type 0} (p : Platform D) where
  pub stamp-Quiet : (w : World D) → Quiet w (stamp p w)
  unfolding stamp is_down
  stamp-Quiet w = ground arith

  pub mouse_start_move-Quiet : (dir : Dir) (w : World D) → Quiet w (mouse_start_move p dir w)
  unfolding mouse_start_move is_down
  mouse_start_move-Quiet dir_left w = ground arith
  mouse_start_move-Quiet _ w = ground arith

  pub trigger_backlight_flash-Quiet : (w : World D) → Quiet w (trigger_backlight_flash p w)
  unfolding trigger_backlight_flash is_down
  trigger_backlight_flash-Quiet w = ground arith

  pub fn_action_run-Quiet : (act : FnAction) (w : World D) → Quiet w (fn_action_run p act w)
  unfolding fn_action_run is_down screen_backlight_adjust kbd_backlight_cycle
  fn_action_run-Quiet screen_bkl_down w = ground arith
  fn_action_run-Quiet _ w = ground arith

  -- The delayed work.
  clock-Quiet : (w : World D) → Quiet w (record w { dev = (p.ktime w.dev).1 })
  clock-Quiet w = ground arith

  move_x-Quiet : (inc : ℤ) (w : World D) → Quiet w (move_x inc w)
  unfolding move_x is_down
  move_x-Quiet inc w = ground arith

  move_y-Quiet : (inc : ℤ) (w : World D) → Quiet w (move_y inc w)
  unfolding move_y is_down
  move_y-Quiet inc w = ground arith

  scheduled-Quiet : (w : World D) → Quiet w (schedule_mouse w)
  unfolding is_down
  scheduled-Quiet w = ground arith

  synced-Quiet : (w : World D) → Quiet w (emit input_sync w)
  unfolding is_down
  synced-Quiet w = ground arith

  sustain-Quiet : (ms : ℤ) (w : World D) → Quiet w (sustain ms w)
  unfolding sustain
  sustain-Quiet ms w =
      let inc = increment (tick_speed w.ctx ms) in
      let moved = Quiet-trans (move_x-Quiet inc w) (move_y-Quiet inc (move_x inc w)) in
      Quiet-trans (Quiet-trans moved (synced-Quiet _)) (scheduled-Quiet _)

  pub mouse_emit_rel-Quiet : (w : World D) → Quiet w (mouse_emit_rel p w)
  unfolding mouse_emit_rel
  mouse_emit_rel-Quiet w =
      let timed : World D = record w { dev = (p.ktime w.dev).1 } in
      let ms = elapsed (p.ktime w.dev).0 w.ctx.mouse_start_ns in
      if_cases (Quiet w) (is_still w.ctx.mouse_dir) w _ (λ _. Quiet-refl w)
        λ _.
          if_cases (Quiet w) (ltb_ℤ ms w.ctx.mouse_start_delay_ms) (schedule_mouse timed) _
            (λ _. Quiet-trans (clock-Quiet w) (scheduled-Quiet timed))
            (λ _. Quiet-trans (clock-Quiet w) (sustain-Quiet ms timed))

  pub bl_flash_restore-Quiet : (w : World D) → Quiet w (bl_flash_restore p w)
  unfolding bl_flash_restore is_down
  bl_flash_restore-Quiet w = ground arith

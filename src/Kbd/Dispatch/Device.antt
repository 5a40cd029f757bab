-- ===== src/Kbd/Dispatch/Device.antt =====
-- The key state machine and the machine behind its bus: what every transfer keeps, every event keeps.
use picocalc_ubuntu_kernel.Kbd.Tables.{
  kbd_bkl_cycle, screen_bkl_up, screen_bkl_down, screen_bkl_down, screen_bkl_up,
}
use picocalc_ubuntu_kernel.Prelude.Int.{ℤ, ltb_ℤ}
use picocalc_ubuntu_kernel.Prelude.{
  refl, [], ◌∷◌, inl, inr, Option-cases, if_cases, ◌≡◌, arith, subst, ◌&&◌, ◌==◌, inl, sym, ◌||◌,
  inr, ◌∙◌,
}
use picocalc_ubuntu_kernel.Kbd.Context.{
  EmitMode, World, kbd_write_i2c_u8, stamp, kbd_read_reg, kbd_read_i2c_2u8, is_code, is_none,
  emit_fn, emit_none, set_slot, emit_mouse, emit_shifted, emit_normal,
}
use picocalc_ubuntu_kernel.Kbd.Backlight.{
  screen_backlight_adjust, trigger_backlight_flash, kbd_backlight_cycle, reg_id_bk2,
  kbd_bl_flash_val, reg_id_bkl, save_backlight, bl_flash_restore,
}
use picocalc_ubuntu_kernel.Input.{
  Keycode, key_leftshift, reserved, btn_left, key_leftalt, btn_right, key_leftctrl,
}
use picocalc_ubuntu_kernel.Platform.{Platform, Ret-cases}
use picocalc_ubuntu_kernel.Kbd.Mouse.{
  jump, dir_left, dir_right, dir_up, dir_down, mouse_stop_move, start_timer, mouse_start_move,
  has_dir, is_still, set_dir, mouse_emit_rel, elapsed, move_x, move_y, sustain, increment,
  tick_speed,
}
use picocalc_ubuntu_kernel.Kbd.Dispatch.{
  release_slot, report_edge, rshift_key, rshift_supplement_down, rshift_supplement_up, Bool, Dir,
  base_press, capslock_key, fn_action_run, fn_press, key_dispatch, key_press, key_release,
  mouse_press, plain_press, run_events, special_key, toggle_mouse_mode, ℕ, List, lshift_key,
  press_as, FnAction, is_arrow, lalt_key, lookup_fn_action, not, arrow_dir, lctrl_key, negsuc,
  pk_none, is_mouse_key, key_body, phys_to_base_keycode, pos, leb, pk_lshift, pk_max, pk_lbracket,
  pk_power, pk_rshift, key_state_hold, pk_lalt, key_state_pressed, pk_rbracket, key_state_released,
  pk_lctrl, pk_capslock, false, true, lookup_fn_keycode,
}

-- A property of the machine that the bus and the clock keep.
pub record Closed {D : Type 0} (p : Platform D) (J : D → Type 0) : Type 0 where
  pub bytes : (d : D) (r : ℕ) → J d → J (p.read_byte d r).1
  pub words : (d : D) (r : ℕ) → J d → J (p.read_word d r).1
  pub writes : (d : D) (r v : ℕ) → J d → J (p.write_byte d r v).1
  pub clock : (d : D) → J d → J (p.ktime d).1

module _ {D : Type 0} where
  rshift_supplement_down-dev : (w : World D) → (rshift_supplement_down w).dev ≡ w.dev
  unfolding rshift_supplement_down
  rshift_supplement_down-dev w = ground arith

  rshift_supplement_up-dev : (w : World D) → (rshift_supplement_up w).dev ≡ w.dev
  unfolding rshift_supplement_up
  rshift_supplement_up-dev w = ground arith

  rshift_key-dev : (press release : Bool) (w : World D) → (rshift_key press release w).dev ≡ w.dev
  unfolding rshift_key rshift_supplement_up
  rshift_key-dev press release w = ground arith

  report_edge-dev :
      (k : Keycode) (press release : Bool) (w : World D)
      → (report_edge k press release w).dev ≡ w.dev
  report_edge-dev k press release w = ground arith

  mouse_stop_move-dev : (dir : Dir) (w : World D) → (mouse_stop_move dir w).dev ≡ w.dev
  unfolding mouse_stop_move
  mouse_stop_move-dev dir w = ground arith

  move_x-dev : (inc : ℤ) (w : World D) → (move_x inc w).dev ≡ w.dev
  unfolding move_x
  move_x-dev inc w = ground arith

  move_y-dev : (inc : ℤ) (w : World D) → (move_y inc w).dev ≡ w.dev
  unfolding move_y
  move_y-dev inc w = ground arith

  sustain-dev : (ms : ℤ) (w : World D) → (sustain ms w).dev ≡ w.dev
  unfolding sustain
  sustain-dev ms w =
      let inc = increment (tick_speed w.ctx ms) in move_y-dev inc (move_x inc w) ∙ move_x-dev inc w

  jump-dev : (dir : Dir) (w : World D) → (jump dir w).dev ≡ w.dev
  jump-dev dir_left w = refl
  jump-dev dir_right w = refl
  jump-dev dir_up w = refl
  jump-dev dir_down w = refl

  release_slot-dev :
      (m : EmitMode) (kc : Keycode) (phys : ℕ) (w : World D)
      → (release_slot m kc phys w).dev ≡ w.dev
  unfolding release_slot
  release_slot-dev emit_none kc phys w = refl
  release_slot-dev emit_mouse kc phys w = ground (arith, mouse_stop_move-dev (arrow_dir phys) w)
  release_slot-dev _ kc phys w = refl

module _ {D : Type 0} (p : Platform D) (J : D → Type 0) (closed : Closed p J) where
  abbrev pub At : World D → Type 0
  At w = J w.dev

  same_dev : {d d' : D} → d' ≡ d → J d → J d'
  same_dev e h = subst J (sym e) h

  stamp-At : (w : World D) → At w → At (stamp p w)
  unfolding stamp
  stamp-At w h = closed.clock w.dev h

  save_backlight-At : (w : World D) → At w → At (save_backlight p w)
  unfolding save_backlight
  save_backlight-At w h = elim (Ret-cases (p.read_word w.dev reg_id_bk2).0) [
    | inl (v, e) ↦ rw (save_backlight, e) (closed.words w.dev reg_id_bk2 h)
    | inr (n, e) ↦ rw (save_backlight, e) (closed.words w.dev reg_id_bk2 h)
  ]

  trigger_backlight_flash-At : (w : World D) → At w → At (trigger_backlight_flash p w)
  unfolding trigger_backlight_flash kbd_write_i2c_u8
  trigger_backlight_flash-At w h =
      closed.writes _ _ kbd_bl_flash_val
        (if_cases At w.ctx.bl_flash_active _ _ (λ _. h) (λ _. save_backlight-At _ h))

  screen_backlight_adjust-At :
      (delta : ℤ) (w : World D) → At w → At (screen_backlight_adjust p delta w)
  unfolding screen_backlight_adjust kbd_read_reg kbd_read_i2c_2u8 kbd_write_i2c_u8
  screen_backlight_adjust-At delta w h =
      let read = closed.words w.dev reg_id_bkl h in
      elim (Ret-cases (p.read_word w.dev reg_id_bkl).0) [
        | inl (v, e) ↦
            rw (screen_backlight_adjust, e)
              (closed.writes (p.read_word w.dev reg_id_bkl).1 _ _ read)
        | inr (n, e) ↦ rw (screen_backlight_adjust, e) read
      ]

  fn_action_run-At : (act : FnAction) (w : World D) → At w → At (fn_action_run p act w)
  unfolding fn_action_run kbd_backlight_cycle kbd_write_i2c_u8
  fn_action_run-At screen_bkl_down w h = screen_backlight_adjust-At (negsuc 15) w h
  fn_action_run-At screen_bkl_up w h = screen_backlight_adjust-At (pos 16) w h
  fn_action_run-At kbd_bkl_cycle w h = closed.writes _ _ _ h

  mouse_start_move-At : (dir : Dir) (w : World D) → At w → At (mouse_start_move p dir w)
  unfolding mouse_start_move start_timer
  mouse_start_move-At dir w h =
      if_cases At (has_dir w.ctx.mouse_dir dir) _ _ (λ _. h)
        λ _.
          if_cases At (is_still (set_dir false (set_dir true w.ctx.mouse_dir dir) dir)) _ _
            (λ _. same_dev (jump-dev dir _) (closed.clock w.dev h)) (λ _. h)

  press_as-At :
      (m : EmitMode) (kc : Keycode) (phys : ℕ) (w : World D) → At w → At (press_as p m kc phys w)
  press_as-At m kc phys w h = stamp-At _ h

  base_press-At : (phys : ℕ) (w : World D) → At w → At (base_press p phys w)
  unfolding base_press
  base_press-At phys w h =
      if_cases At (not (is_code (phys_to_base_keycode phys))) _ _ (λ _. h)
        λ _.
          if_cases At w.ctx.phy_shr _ _
            (λ _.
              press_as-At emit_shifted _ phys (rshift_supplement_down w)
                (same_dev (rshift_supplement_down-dev w) h))
            (λ _. press_as-At emit_normal _ phys w h)

  fn_press-At : (phys : ℕ) (w : World D) → At w → At (fn_press p phys w)
  unfolding fn_press
  fn_press-At phys w h = elim (Option-cases (lookup_fn_action phys)) [
    | inl e ↦
        rw (fn_press, e)
          (if_cases At (is_code (lookup_fn_keycode phys w.ctx.mouse_mode)) _ _
            (λ _. press_as-At emit_fn (lookup_fn_keycode phys w.ctx.mouse_mode) phys w h)
            (λ _. base_press-At phys w h))
    | inr (act, e) ↦ rw (fn_press, e) (stamp-At _ (fn_action_run-At act w h))
  ]

  plain_press-At : (phys : ℕ) (w : World D) → At w → At (plain_press p phys w)
  unfolding plain_press
  plain_press-At phys w h =
      if_cases At w.ctx.phy_shr _ _ (λ _. fn_press-At phys w h) (λ _. base_press-At phys w h)

  mouse_press-At : (phys : ℕ) (w : World D) → At w → At (mouse_press p phys w)
  unfolding mouse_press
  mouse_press-At phys w h =
      if_cases At (is_arrow phys) _ _
        (λ _.
          stamp-At _ (mouse_start_move-At (arrow_dir phys) (set_slot phys emit_mouse reserved w) h))
        λ _.
          if_cases At (phys == pk_lbracket) _ _ (λ _. press_as-At emit_mouse btn_left phys w h)
            λ _.
              if_cases At (phys == pk_rbracket) _ _ (λ _. press_as-At emit_mouse btn_right phys w h)
                (λ _. plain_press-At phys w h)

  key_press-At : (phys : ℕ) (w : World D) → At w → At (key_press p phys w)
  unfolding key_press
  key_press-At phys w h =
      if_cases At (not (is_none (w.ctx.key_state phys).emit_mode)) _ _ (λ _. h)
        λ _.
          if_cases At (w.ctx.mouse_mode && not w.ctx.phy_shr && is_mouse_key phys) _ _
            (λ _. mouse_press-At phys w h) (λ _. plain_press-At phys w h)

  key_release-At : (phys : ℕ) (w : World D) → At w → At (key_release p phys w)
  unfolding key_release
  key_release-At phys w h =
      let slot = w.ctx.key_state phys in
      stamp-At _ (same_dev (release_slot-dev slot.emit_mode slot.keycode phys w) h)

  toggle_mouse_mode-At : (w : World D) → At w → At (toggle_mouse_mode p w)
  unfolding toggle_mouse_mode
  toggle_mouse_mode-At w h = trigger_backlight_flash-At _ (same_dev (rshift_supplement_up-dev _) h)

  capslock_key-At :
      (press release : Bool) (w : World D) → At w → At (capslock_key p press release w)
  unfolding capslock_key
  capslock_key-At press release w h =
      if_cases At (press && w.ctx.phy_shr) _ _ (λ _. toggle_mouse_mode-At w h)
        (λ _. stamp-At _ (same_dev (ground arith) h))

  special_key-At :
      (phys : ℕ) (press release : Bool) (w : World D)
      → At w
      → At (special_key p phys press release w)
  unfolding special_key lshift_key lalt_key lctrl_key key_body
  special_key-At phys press release w h =
      if_cases At (phys == pk_lshift) _ _
        (λ _. stamp-At _ (same_dev (report_edge-dev key_leftshift press release _) h))
        λ _.
          if_cases At (phys == pk_rshift) _ _ (λ _. same_dev (rshift_key-dev press release w) h)
            λ _.
              if_cases At (phys == pk_lalt) _ _
                (λ _. stamp-At _ (same_dev (report_edge-dev key_leftalt press release _) h))
                λ _.
                  if_cases At (phys == pk_lctrl) _ _
                    (λ _. stamp-At _ (same_dev (report_edge-dev key_leftctrl press release _) h))
                    λ _.
                      if_cases At (phys == pk_capslock) _ _ (λ _. capslock_key-At press release w h)
                        λ _.
                          if_cases At release _ _ (λ _. key_release-At phys w h)
                            λ _. if_cases At press _ _ (λ _. key_press-At phys w h) (λ _. h)

  key_dispatch-At : (phys state : ℕ) (w : World D) → At w → At (key_dispatch p phys state w)
  unfolding key_dispatch
  key_dispatch-At phys state w h =
      if_cases At (phys == pk_none || leb pk_max phys) _ _ (λ _. h)
        λ _.
          if_cases At (phys == pk_power) _ _ (λ _. h)
            λ _.
              if_cases At (state == key_state_hold) _ _ (λ _. h)
                (λ _.
                  special_key-At phys (state == key_state_pressed) (state == key_state_released) w
                    h)

  pub run_events-At : (es : List (ℕ × ℕ)) (w : World D) → At w → At (run_events p es w)
  unfolding run_events
  run_events-At [] w h = h
  run_events-At ((phys, state) ∷ es) w h =
      run_events-At es (key_dispatch p phys state w) (key_dispatch-At phys state w h)

  pub mouse_emit_rel-At : (w : World D) → At w → At (mouse_emit_rel p w)
  unfolding mouse_emit_rel
  mouse_emit_rel-At w h =
      if_cases At (is_still w.ctx.mouse_dir) _ _ (λ _. h)
        λ _.
          if_cases At
            (ltb_ℤ (elapsed (p.ktime w.dev).0 w.ctx.mouse_start_ns) w.ctx.mouse_start_delay_ms) _ _
            (λ _. closed.clock w.dev h)
            (λ _.
              same_dev
                (sustain-dev (elapsed (p.ktime w.dev).0 w.ctx.mouse_start_ns)
                  (record w { dev = (p.ktime w.dev).1 }))
                (closed.clock w.dev h))

  pub bl_flash_restore-At : (w : World D) → At w → At (bl_flash_restore p w)
  unfolding bl_flash_restore kbd_write_i2c_u8
  bl_flash_restore-At w h = closed.writes _ _ _ h

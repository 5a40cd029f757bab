-- ===== src/Kbd/Worker/Order.antt =====
-- The worker dispatches what it read, in the order in which it was read.
use picocalc_ubuntu_kernel.Kbd.Phys.{pk_lbracket, pk_rbracket}
use picocalc_ubuntu_kernel.Kbd.Tables.{
  scancode_to_phys, FnAction, lookup_fn_action, screen_bkl_down, lookup_fn_keycode,
  phys_to_base_keycode,
}
use picocalc_ubuntu_kernel.Input.{Keycode, reserved, btn_left, btn_right}
use picocalc_ubuntu_kernel.Kbd.Worker.{
  dispatch_items, dispatch_item, read_items, reg_id_fif, store_item,
}
use picocalc_ubuntu_kernel.Kbd.Backlight.{
  trigger_backlight_flash, screen_backlight_adjust, kbd_backlight_cycle,
}
use picocalc_ubuntu_kernel.Platform.{Platform, Ret, value, failure}
use picocalc_ubuntu_kernel.Kbd.Mouse.{mouse_stop_move, Dir, mouse_start_move, dir_left}
use picocalc_ubuntu_kernel.Kbd.Dispatch.{
  release_slot, rshift_supplement_down, rshift_supplement_up, base_press, capslock_key,
  fn_action_run, fn_press, key_dispatch, key_press, key_release, mouse_press, plain_press,
  special_key, toggle_mouse_mode, key_body, run_events, arrow_dir, lshift_key, press_as,
  key_state_pressed, rshift_key, key_state_released, lalt_key, lctrl_key, is_arrow,
}
use picocalc_ubuntu_kernel.Kbd.Context.{
  World, EmitMode, FifoItem, stamp, emit_none, emit_mouse, emit_fn, is_code, set_slot, emit_shifted,
  emit_normal, kbd_read_i2c_2u8,
}
use mathlib.Core.Path.{ap₂, ap}
use picocalc_ubuntu_kernel.Prelude.{
  refl, arith, ℕ, suc, ◌≡◌, Bool, ◌∙◌, Option-cases, tabulate, ◌==◌, ◌+◌, inl, zero, inr, if_cases,
  not, tabulate-ext, if◌then◌else◌, true, false,
}

-- The event that an entry of the driver's array stands for.
abbrev pub event_of : FifoItem → ℕ × ℕ
event_of item = (scancode_to_phys item.scancode, item.state)

abbrev Kept : {D : Type 0} → World D → World D → Type 0
Kept w w' = w'.ctx.key_fifo_data ≡ w.ctx.key_fifo_data

module _ {D : Type 0} where
  mouse_stop_move-Kept : (dir : Dir) (w : World D) → Kept w (mouse_stop_move dir w)
  unfolding mouse_stop_move
  mouse_stop_move-Kept dir w = ground arith

  release_slot-Kept :
      (m : EmitMode) (kc : Keycode) (phys : ℕ) (w : World D) → Kept w (release_slot m kc phys w)
  unfolding release_slot
  release_slot-Kept emit_none kc phys w = refl
  release_slot-Kept emit_mouse kc phys w = ground (arith, mouse_stop_move-Kept (arrow_dir phys) w)
  release_slot-Kept _ kc phys w = refl

  rshift_supplement_up-Kept : (w : World D) → Kept w (rshift_supplement_up w)
  unfolding rshift_supplement_up
  rshift_supplement_up-Kept w = ground arith

  rshift_supplement_down-Kept : (w : World D) → Kept w (rshift_supplement_down w)
  unfolding rshift_supplement_down
  rshift_supplement_down-Kept w = ground arith

module _ {D : Type 0} (p : Platform D) where
  stamp-Kept : (w : World D) → Kept w (stamp p w)
  unfolding stamp
  stamp-Kept w = refl

  trigger_backlight_flash-Kept : (w : World D) → Kept w (trigger_backlight_flash p w)
  unfolding trigger_backlight_flash
  trigger_backlight_flash-Kept w = ground arith

  fn_action_run-Kept : (act : FnAction) (w : World D) → Kept w (fn_action_run p act w)
  unfolding fn_action_run screen_backlight_adjust kbd_backlight_cycle
  fn_action_run-Kept screen_bkl_down w = ground arith
  fn_action_run-Kept _ w = ground arith

  mouse_start_move-Kept : (dir : Dir) (w : World D) → Kept w (mouse_start_move p dir w)
  unfolding mouse_start_move
  mouse_start_move-Kept dir_left w = ground arith
  mouse_start_move-Kept _ w = ground arith

  press_as-Kept :
      (m : EmitMode) (kc : Keycode) (phys : ℕ) (w : World D) → Kept w (press_as p m kc phys w)
  press_as-Kept m kc phys w = stamp-Kept _

  base_press-Kept : (phys : ℕ) (w : World D) → Kept w (base_press p phys w)
  unfolding base_press
  base_press-Kept phys w =
      if_cases (Kept w) (not (is_code (phys_to_base_keycode phys))) _ _ (λ _. refl)
        λ _.
          if_cases (Kept w) w.ctx.phy_shr _ _
            (λ _. press_as-Kept emit_shifted _ phys _ ∙ rshift_supplement_down-Kept w)
            (λ _. press_as-Kept emit_normal _ phys w)

  fn_press-Kept : (phys : ℕ) (w : World D) → Kept w (fn_press p phys w)
  unfolding fn_press
  fn_press-Kept phys w = elim (Option-cases (lookup_fn_action phys)) [
    | inl e ↦
        rw (fn_press, e)
          (ground (
            arith,
            base_press-Kept phys w,
            press_as-Kept emit_fn (lookup_fn_keycode phys w.ctx.mouse_mode) phys w,
          ))
    | inr (act, e) ↦ rw (fn_press, e) (stamp-Kept _ ∙ fn_action_run-Kept act w)
  ]

  plain_press-Kept : (phys : ℕ) (w : World D) → Kept w (plain_press p phys w)
  unfolding plain_press
  plain_press-Kept phys w = ground (arith, fn_press-Kept phys w, base_press-Kept phys w)

  mouse_press-Kept : (phys : ℕ) (w : World D) → Kept w (mouse_press p phys w)
  unfolding mouse_press
  mouse_press-Kept phys w =
      if_cases (Kept w) (is_arrow phys) _ _
        (λ _.
          stamp-Kept _
          ∙ mouse_start_move-Kept (arrow_dir phys) (set_slot phys emit_mouse reserved w))
        λ _.
          if_cases (Kept w) (phys == pk_lbracket) _ _
            (λ _. press_as-Kept emit_mouse btn_left phys w)
            λ _.
              if_cases (Kept w) (phys == pk_rbracket) _ _
                (λ _. press_as-Kept emit_mouse btn_right phys w) (λ _. plain_press-Kept phys w)

  key_press-Kept : (phys : ℕ) (w : World D) → Kept w (key_press p phys w)
  unfolding key_press
  key_press-Kept phys w = ground (arith, mouse_press-Kept phys w, plain_press-Kept phys w)

  key_release-Kept : (phys : ℕ) (w : World D) → Kept w (key_release p phys w)
  unfolding key_release
  key_release-Kept phys w =
      let slot = w.ctx.key_state phys in
      stamp-Kept _ ∙ release_slot-Kept slot.emit_mode slot.keycode phys w

  toggle_mouse_mode-Kept : (w : World D) → Kept w (toggle_mouse_mode p w)
  unfolding toggle_mouse_mode
  toggle_mouse_mode-Kept w = trigger_backlight_flash-Kept _ ∙ rshift_supplement_up-Kept _

  capslock_key-Kept : (press release : Bool) (w : World D) → Kept w (capslock_key p press release w)
  unfolding capslock_key stamp
  capslock_key-Kept press release w = ground (arith, toggle_mouse_mode-Kept w)

  lshift_key-Kept : (press release : Bool) (w : World D) → Kept w (lshift_key p press release w)
  unfolding lshift_key stamp
  lshift_key-Kept press release w = ground arith

  lalt_key-Kept : (press release : Bool) (w : World D) → Kept w (lalt_key p press release w)
  unfolding lalt_key stamp
  lalt_key-Kept press release w = ground arith

  lctrl_key-Kept : (press release : Bool) (w : World D) → Kept w (lctrl_key p press release w)
  unfolding lctrl_key stamp
  lctrl_key-Kept press release w = ground arith

  rshift_key-Kept : (press release : Bool) (w : World D) → Kept w (rshift_key press release w)
  unfolding rshift_key rshift_supplement_up
  rshift_key-Kept press release w = ground arith

  key_body-Kept :
      (phys : ℕ) (press release : Bool) (w : World D) → Kept w (key_body p phys press release w)
  unfolding key_body
  key_body-Kept phys press release w =
      ground (arith, key_release-Kept phys w, key_press-Kept phys w)

  special_key-Kept :
      (phys : ℕ) (press release : Bool) (w : World D) → Kept w (special_key p phys press release w)
  unfolding special_key
  special_key-Kept phys press release w = ground (
    arith,
    lshift_key-Kept press release w,
    rshift_key-Kept press release w,
    lalt_key-Kept press release w,
    lctrl_key-Kept press release w,
    capslock_key-Kept press release w,
    key_body-Kept phys press release w,
  )

  key_dispatch-Kept : (phys state : ℕ) (w : World D) → Kept w (key_dispatch p phys state w)
  unfolding key_dispatch
  key_dispatch-Kept phys state w =
      ground
        (arith, special_key-Kept phys (state == key_state_pressed) (state == key_state_released) w)

  pub dispatch_items-run :
      (n i : ℕ) (w : World D)
      → dispatch_items p n i w
        ≡ run_events p (tabulate n (λ j. event_of (w.ctx.key_fifo_data (i + j)))) w
  unfolding dispatch_items dispatch_item run_events tabulate
  dispatch_items-run zero i w = refl
  dispatch_items-run (suc n) i w =
      let item = w.ctx.key_fifo_data i in
      let w1 = key_dispatch p (scancode_to_phys item.scancode) item.state w in
      let kept = key_dispatch-Kept (scancode_to_phys item.scancode) item.state w in
      dispatch_items-run n (suc i) w1
      ∙ ap₂ (run_events p)
          (tabulate-ext n _ _ (λ k h.
            ap event_of (ap (λ d. d (suc i + k)) kept ∙ ap w.ctx.key_fifo_data (omega arith))))
          (ap
            (λ m.
              key_dispatch p (scancode_to_phys (w.ctx.key_fifo_data m).scancode)
                (w.ctx.key_fifo_data m).state w)
            (omega arith))

  -- One round of the reading, by what the controller answers.
  pub read_items-value :
      (n i state scancode : ℕ) (w w' : World D)
      → kbd_read_i2c_2u8 p reg_id_fif w ≡ (value (state, scancode), w')
      → read_items p (suc n) i w
        ≡ (if state == 0 then w' else read_items p n (suc i) (store_item p i (state, scancode) w'))
  unfolding read_items
  read_items-value n i state scancode w w' e =
      ap
        (λ (r : Ret (ℕ × ℕ) × World D).
          let next : World D = elim r.0 [
            | failure err ↦ r.1
            | value b ↦ elim (b.0 == 0) [
              | true ↦ r.1
              | false ↦ read_items p n (suc i) (store_item p i b r.1)
            ]
          ] in
          next)
        e
      ∙ ground arith

  pub read_items-zero : (i : ℕ) (w : World D) → read_items p zero i w ≡ w
  unfolding read_items
  read_items-zero i w = refl

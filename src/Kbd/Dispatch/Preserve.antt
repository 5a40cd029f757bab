-- ===== src/Kbd/Dispatch/Preserve.antt =====
-- Every event keeps the invariant between the state machine and the keys that Linux holds down.
use picocalc_ubuntu_kernel.Kbd.Dispatch.Modifiers.{
  rshift_supplement_down-Inv, rshift_supplement_down-slots, rshift_key-Inv, lshift_key-Inv,
  lalt_key-Inv, lctrl_key-Inv, capslock_key-Inv,
}
use picocalc_ubuntu_kernel.Kbd.Dispatch.Releases.{key_release-Inv}
use picocalc_ubuntu_kernel.Prelude.{
  if_cases, ℕ, ◌<◌, ◌≡◌, refl, ◌≢◌, ◌⊎◌, inl, inr, Bool, true, false, not, ◌&&◌, ◌||◌, leb, ◌==◌,
  if◌then◌else◌, Option-cases, arith,
}
use picocalc_ubuntu_kernel.Input.{Keycode, reserved, btn_left, btn_right}
use picocalc_ubuntu_kernel.Platform.{Platform}
use picocalc_ubuntu_kernel.Kbd.Phys.{pk_max, pk_lbracket, pk_rbracket, pk_capslock}
use picocalc_ubuntu_kernel.Kbd.Context.{
  World, EmitMode, emit_none, emit_normal, emit_shifted, emit_fn, emit_mouse, is_none, is_code,
  set_slot, stamp,
}
use picocalc_ubuntu_kernel.Kbd.Tables.{phys_to_base_keycode, lookup_fn_keycode, lookup_fn_action}
use picocalc_ubuntu_kernel.Kbd.Tables.Facts.{
  phys_to_base_keycode-IsPlain, lookup_fn_keycode-IsPlain,
}
use picocalc_ubuntu_kernel.Kbd.Dispatch.{
  key_dispatch, rshift_supplement_down, press_as, key_press, is_mouse_key, FnAction, base_press,
  fn_press, is_arrow, mouse_press, arrow_dir, fn_action_run, key_body, mouse_start_move,
  plain_press, key_state_pressed, special_key, key_state_hold, pk_lshift, key_state_released,
  pk_rshift, pk_lalt, pk_none, pk_lctrl, pk_power,
}
use picocalc_ubuntu_kernel.Kbd.Dispatch.Quiet.{
  stamp-Quiet, mouse_start_move-Quiet, fn_action_run-Quiet,
}
use picocalc_ubuntu_kernel.Kbd.Dispatch.Invariant.{SlotOk, Inv, Quiet-Inv, silent-Inv, pressed-Inv}

idle_of : (m : EmitMode) → not (is_none m) ≡ false → m ≡ emit_none
idle_of emit_none h = refl
idle_of _ h = cc

released_iff :
    (state : ℕ)
    → (state ≡ key_state_pressed) ⊎ (state ≡ key_state_hold) ⊎ (state ≡ key_state_released)
    → (state == key_state_hold) ≡ false
    → (state == key_state_released) ≡ not (state == key_state_pressed)
released_iff state known h = ground arith

module _ {D : Type 0} (p : Platform D) where
  -- A press through `press_as`.
  press_as-Inv :
      (m : EmitMode) (kc : Keycode) (phys : ℕ) (w : World D)
      → (w.ctx.key_state phys).emit_mode ≡ emit_none
      → m ≢ emit_none
      → SlotOk phys (record { emit_mode = m; keycode = kc })
      → Inv w
      → Inv (press_as p m kc phys w)
  press_as-Inv m kc phys w idle used ok i =
      Quiet-Inv (stamp-Quiet p _) (pressed-Inv m kc phys w idle used ok i)

  module _ (phys : ℕ) (fits : phys < pk_max) (ordinary : phys ≢ pk_capslock) where
    base-SlotOk :
        (m : EmitMode)
        → m ≢ emit_mouse
        → SlotOk phys (record { emit_mode = m; keycode = phys_to_base_keycode phys })
    base-SlotOk m other = record {
      plain = phys_to_base_keycode-IsPlain phys fits ordinary;
      mouse = λ e. absurd (other e);
    }

    base_press-Inv :
        (w : World D)
        → (w.ctx.key_state phys).emit_mode ≡ emit_none
        → Inv w
        → Inv (base_press p phys w)
    unfolding base_press
    base_press-Inv w idle i =
        if_cases Inv (not (is_code (phys_to_base_keycode phys))) _ _ (λ _. i)
          λ _.
            if_cases Inv w.ctx.phy_shr _ _
              (λ _.
                press_as-Inv emit_shifted _ phys (rshift_supplement_down w)
                  (rw (rshift_supplement_down-slots w) idle) (λ e. cc)
                  (base-SlotOk emit_shifted (λ e. cc)) (rshift_supplement_down-Inv w i))
              (λ _.
                press_as-Inv emit_normal _ phys w idle (λ e. cc) (base-SlotOk emit_normal (λ e. cc))
                  i)

    action_press-Inv :
        (act : FnAction) (w : World D)
        → (w.ctx.key_state phys).emit_mode ≡ emit_none
        → Inv w
        → Inv (stamp p (set_slot phys emit_fn reserved (fn_action_run p act w)))
    action_press-Inv act w idle i =
        let q = fn_action_run-Quiet p act w in
        Quiet-Inv (stamp-Quiet p _)
          (silent-Inv emit_fn phys (fn_action_run p act w) (rw q.slots idle) (Quiet-Inv q i))

    fn_code_press-Inv :
        (w : World D)
        → (w.ctx.key_state phys).emit_mode ≡ emit_none
        → Inv w
        → let kc = lookup_fn_keycode phys w.ctx.mouse_mode in
          Inv (if is_code kc then press_as p emit_fn kc phys w else base_press p phys w)
    fn_code_press-Inv w idle i =
        if_cases Inv (is_code (lookup_fn_keycode phys w.ctx.mouse_mode)) _ _
          (λ _. press_as-Inv emit_fn _ phys w idle (λ e. cc) fn-SlotOk i)
          (λ _. base_press-Inv w idle i)
      where
        fn-SlotOk :
            SlotOk phys
              (record { emit_mode = emit_fn; keycode = lookup_fn_keycode phys w.ctx.mouse_mode })
        fn-SlotOk = record {
          plain = lookup_fn_keycode-IsPlain phys w.ctx.mouse_mode fits;
          mouse = λ e. cc;
        }

    fn_press-Inv :
        (w : World D)
        → (w.ctx.key_state phys).emit_mode ≡ emit_none
        → Inv w
        → Inv (fn_press p phys w)
    unfolding fn_press
    fn_press-Inv w idle i = elim (Option-cases (lookup_fn_action phys)) [
      | inr (act, e) ↦ rw (e, fn_press) (action_press-Inv act w idle i)
      | inl e ↦ rw (e, fn_press) (fn_code_press-Inv w idle i)
    ]

    plain_press-Inv :
        (w : World D)
        → (w.ctx.key_state phys).emit_mode ≡ emit_none
        → Inv w
        → Inv (plain_press p phys w)
    unfolding plain_press
    plain_press-Inv w idle i =
        if_cases Inv w.ctx.phy_shr _ _ (λ _. fn_press-Inv w idle i) (λ _. base_press-Inv w idle i)

    arrow_press-Inv :
        (w : World D)
        → (w.ctx.key_state phys).emit_mode ≡ emit_none
        → Inv w
        → Inv (stamp p (mouse_start_move p (arrow_dir phys) (set_slot phys emit_mouse reserved w)))
    arrow_press-Inv w idle i = Quiet-Inv (stamp-Quiet p _) (
        Quiet-Inv (mouse_start_move-Quiet p (arrow_dir phys) _)
          (silent-Inv emit_mouse phys w idle i))

    left-SlotOk :
        (phys == pk_lbracket) ≡ true
        → SlotOk phys (record { emit_mode = emit_mouse; keycode = btn_left })
    left-SlotOk e = record { plain = ground arith; mouse = λ m. inr (inl (ground arith, refl)) }

    right-SlotOk :
        (phys == pk_rbracket) ≡ true
        → SlotOk phys (record { emit_mode = emit_mouse; keycode = btn_right })
    right-SlotOk e = record { plain = ground arith; mouse = λ m. inr (inr (ground arith, refl)) }

    mouse_press-Inv :
        (w : World D)
        → (w.ctx.key_state phys).emit_mode ≡ emit_none
        → Inv w
        → Inv (mouse_press p phys w)
    unfolding mouse_press
    mouse_press-Inv w idle i =
        if_cases Inv (is_arrow phys) _ _ (λ _. arrow_press-Inv w idle i)
          λ _.
            if_cases Inv (phys == pk_lbracket) _ _
              (λ e. press_as-Inv emit_mouse btn_left phys w idle (λ x. cc) (left-SlotOk e) i)
              λ _.
                if_cases Inv (phys == pk_rbracket) _ _
                  (λ e. press_as-Inv emit_mouse btn_right phys w idle (λ x. cc) (right-SlotOk e) i)
                  (λ _. plain_press-Inv w idle i)

    key_press-Inv : (w : World D) → Inv w → Inv (key_press p phys w)
    unfolding key_press
    key_press-Inv w i =
        if_cases Inv (not (is_none (w.ctx.key_state phys).emit_mode)) _ _ (λ _. i)
          λ e.
            let idle = idle_of _ e in
            if_cases Inv (w.ctx.mouse_mode && not w.ctx.phy_shr && is_mouse_key phys) _ _
              (λ _. mouse_press-Inv w idle i) (λ _. plain_press-Inv w idle i)

    key_body-Inv : (press : Bool) (w : World D) → Inv w → Inv (key_body p phys press (not press) w)
    unfolding key_body
    key_body-Inv true w i = key_press-Inv w i
    key_body-Inv false w i = key_release-Inv p phys w i

  special_key-Inv :
      (phys : ℕ) (press : Bool) (w : World D)
      → phys < pk_max
      → Inv w
      → Inv (special_key p phys press (not press) w)
  unfolding special_key
  special_key-Inv phys press w fits i =
      if_cases Inv (phys == pk_lshift) _ _ (λ _. lshift_key-Inv p press w i)
        λ _.
          if_cases Inv (phys == pk_rshift) _ _ (λ _. rshift_key-Inv press w i)
            λ _.
              if_cases Inv (phys == pk_lalt) _ _ (λ _. lalt_key-Inv p press w i)
                λ _.
                  if_cases Inv (phys == pk_lctrl) _ _ (λ _. lctrl_key-Inv p press w i)
                    λ _.
                      if_cases Inv (phys == pk_capslock) _ _ (λ _. capslock_key-Inv p press w i)
                        λ e. key_body-Inv phys fits (ground arith) press w i

  -- A press, a hold or a release of any key keeps the invariant.
  pub key_dispatch-Inv :
      (phys state : ℕ) (w : World D)
      → (state ≡ key_state_pressed) ⊎ (state ≡ key_state_hold) ⊎ (state ≡ key_state_released)
      → Inv w
      → Inv (key_dispatch p phys state w)
  unfolding key_dispatch
  key_dispatch-Inv phys state w known i =
      if_cases Inv (phys == pk_none || leb pk_max phys) _ _ (λ _. i)
        λ e.
          if_cases Inv (phys == pk_power) _ _ (λ _. i)
            λ _.
              if_cases Inv (state == key_state_hold) _ _ (λ _. i)
                λ h.
                  rw (released_iff state known h)
                    (special_key-Inv phys (state == key_state_pressed) w (ground arith) i)

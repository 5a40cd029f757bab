-- ===== src/Kbd/Dispatch/Repeat.antt =====
-- Events that the state machine ignores: holds, and presses that the firmware repeats.
use picocalc_ubuntu_kernel.Prelude.{
  if_cases, ==_self, ℕ, ◌≡◌, refl, ap, ◌⊎◌, inl, inr, false, not, ◌&&◌, ◌==◌, Option-cases,
}
use picocalc_ubuntu_kernel.Input.{Keycode, reserved, btn_left, btn_right}
use picocalc_ubuntu_kernel.Platform.{Platform}
use picocalc_ubuntu_kernel.Kbd.Phys.{pk_lbracket, pk_rbracket}
use picocalc_ubuntu_kernel.Kbd.Context.{
  World, EmitMode, emit_normal, emit_shifted, emit_fn, emit_mouse, is_none, is_code, set_slot,
  stamp,
}
use picocalc_ubuntu_kernel.Kbd.Tables.{phys_to_base_keycode, lookup_fn_keycode, lookup_fn_action}
use picocalc_ubuntu_kernel.Kbd.Dispatch.{
  key_dispatch, key_press, key_state_pressed, press_as, base_press, fn_press, is_mouse_key,
  mouse_press, plain_press, is_arrow, arrow_dir, fn_action_run, mouse_start_move,
  rshift_supplement_down,
}
use picocalc_ubuntu_kernel.Kbd.Dispatch.Quiet.{stamp-Quiet, mouse_start_move-Quiet}
use picocalc_ubuntu_kernel.Kbd.Dispatch.Frame.{IsOrdinary, key_dispatch-press}

module _ {D : Type 0} (p : Platform D) (phys : ℕ) where
  -- The press took the key's slot, or changed nothing at all.
  abbrev Settled : World D → World D → Type 0
  Settled w w' = (is_none (w'.ctx.key_state phys).emit_mode ≡ false) ⊎ (w' ≡ w)

  set_slot-settled :
      (m : EmitMode) (kc : Keycode) (w : World D)
      → is_none m ≡ false
      → is_none ((set_slot phys m kc w).ctx.key_state phys).emit_mode ≡ false
  set_slot-settled m kc w used = rw (==_self phys) used

  slot_set :
      (m : EmitMode) (kc : Keycode) (w : World D)
      → is_none m ≡ false
      → is_none ((stamp p (set_slot phys m kc w)).ctx.key_state phys).emit_mode ≡ false
  slot_set m kc w used =
      rw (stamp-Quiet p (set_slot phys m kc w)).slots (set_slot-settled m kc w used)

  press_as-settled :
      (m : EmitMode) (kc : Keycode) (w : World D)
      → is_none m ≡ false
      → is_none ((press_as p m kc phys w).ctx.key_state phys).emit_mode ≡ false
  unfolding stamp
  press_as-settled m kc w used = rw (==_self phys) used

  base_press-Settled : (w : World D) → Settled w (base_press p phys w)
  unfolding base_press
  base_press-Settled w =
      let P = Settled w in
      if_cases P (not (is_code (phys_to_base_keycode phys))) _ _ (λ _. inr refl)
        λ _.
          if_cases P w.ctx.phy_shr _ _
            (λ _. inl (press_as-settled emit_shifted _ (rshift_supplement_down w) refl))
            (λ _. inl (press_as-settled emit_normal _ w refl))

  fn_press-Settled : (w : World D) → Settled w (fn_press p phys w)
  unfolding fn_press
  fn_press-Settled w = elim (Option-cases (lookup_fn_action phys)) [
    | inr (act, e) ↦ rw (e, fn_press) (inl (slot_set emit_fn reserved (fn_action_run p act w) refl))
    | inl e ↦
        rw (e, fn_press)
          (if_cases (Settled w) (is_code (lookup_fn_keycode phys w.ctx.mouse_mode)) _ _
            (λ _. inl (press_as-settled emit_fn _ w refl)) (λ _. base_press-Settled w))
  ]

  plain_press-Settled : (w : World D) → Settled w (plain_press p phys w)
  unfolding plain_press
  plain_press-Settled w =
      if_cases (Settled w) w.ctx.phy_shr _ _ (λ _. fn_press-Settled w) (λ _. base_press-Settled w)

  arrow_press-settled :
      (w : World D)
      → let w' =
          stamp p (mouse_start_move p (arrow_dir phys) (set_slot phys emit_mouse reserved w)) in
        is_none (w'.ctx.key_state phys).emit_mode ≡ false
  arrow_press-settled w =
      let w1 = set_slot phys emit_mouse reserved w in
      rw
        (
          (stamp-Quiet p (mouse_start_move p (arrow_dir phys) w1)).slots,
          (mouse_start_move-Quiet p (arrow_dir phys) w1).slots,
        )
        (set_slot-settled emit_mouse reserved w refl)

  mouse_press-Settled : (w : World D) → Settled w (mouse_press p phys w)
  unfolding mouse_press
  mouse_press-Settled w =
      if_cases (Settled w) (is_arrow phys) _ _ (λ _. inl (arrow_press-settled w))
        λ _.
          if_cases (Settled w) (phys == pk_lbracket) _ _
            (λ _. inl (press_as-settled emit_mouse btn_left w refl))
            λ _.
              if_cases (Settled w) (phys == pk_rbracket) _ _
                (λ _. inl (press_as-settled emit_mouse btn_right w refl))
                (λ _. plain_press-Settled w)

  key_press-Settled : (w : World D) → Settled w (key_press p phys w)
  unfolding key_press
  key_press-Settled w =
      if_cases (Settled w) (not (is_none (w.ctx.key_state phys).emit_mode)) _ _ (λ _. inr refl)
        λ _.
          if_cases (Settled w) (w.ctx.mouse_mode && not w.ctx.phy_shr && is_mouse_key phys) _ _
            (λ _. mouse_press-Settled w) (λ _. plain_press-Settled w)

  in_use : (w : World D) → is_none (w.ctx.key_state phys).emit_mode ≡ false → key_press p phys w ≡ w
  unfolding key_press
  in_use w h = rw h

  -- A press of an ordinary key that is repeated changes nothing: no report, no clock reading, no write.
  pub repeated_press_ignored :
      (w : World D)
      → IsOrdinary phys
      → key_dispatch p phys key_state_pressed (key_dispatch p phys key_state_pressed w)
        ≡ key_dispatch p phys key_state_pressed w
  repeated_press_ignored w o =
      rw (key_dispatch-press p phys w o, key_dispatch-press p phys (key_press p phys w) o)
        (elim (key_press-Settled w) [
          | inl used ↦ in_use (key_press p phys w) used
          | inr same ↦ ap (key_press p phys) same
        ])

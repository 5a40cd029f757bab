-- ===== src/Kbd/Dispatch/Flags.antt =====
-- The modifier flags of the keyboard driver: only the modifier's own key changes one.
use Dispatch.{emit_none}
use picocalc_ubuntu_kernel.Kbd.Dispatch.Quiet.{
  Quiet, mouse_stop_move-Quiet, stamp-Quiet, fn_action_run-Quiet, mouse_start_move-Quiet,
  trigger_backlight_flash-Quiet,
}
use picocalc_ubuntu_kernel.Kbd.Dispatch.{
  base_press, capslock_key, fn_press, key_body, key_press, key_release, mouse_press,
  mouse_start_move, plain_press, press_as, release_slot, special_key, toggle_mouse_mode, arrow_dir,
  is_arrow, lookup_fn_action, lshift_key, rshift_supplement_down, rshift_supplement_up, pk_lbracket,
  rshift_key, fn_action_run, lalt_key, pk_rbracket, is_mouse_key, lctrl_key, lookup_fn_keycode,
  key_dispatch, key_state_hold, key_state_pressed, key_state_released,
}
use picocalc_ubuntu_kernel.Prelude.{
  if_cases, ℕ, ◌≡◌, ◌∙◌, inl, inr, Option-cases, arith, Bool, if◌then◌else◌, not, ◌==◌, ◌&&◌, ◌≢◌,
}
use picocalc_ubuntu_kernel.Kbd.Phys.{pk_lshift, pk_rshift, pk_lalt, pk_lctrl}
use picocalc_ubuntu_kernel.Platform.{Platform}
use picocalc_ubuntu_kernel.Input.{Keycode, reserved, btn_left, btn_right}
use picocalc_ubuntu_kernel.Kbd.Context.{
  World, EmitMode, emit_fn, emit_mouse, stamp, set_slot, is_none, is_code,
}
use picocalc_ubuntu_kernel.Kbd.Dispatch

-- The flags are as they were.
pub record SameFlags {D : Type 0} (w w' : World D) : Type 0 where
  pub shl : w'.ctx.phy_shl ≡ w.ctx.phy_shl
  pub shr : w'.ctx.phy_shr ≡ w.ctx.phy_shr
  pub alt : w'.ctx.phy_alt ≡ w.ctx.phy_alt
  pub ctrl : w'.ctx.phy_ctrl ≡ w.ctx.phy_ctrl

module _ {D : Type 0} where
  SameFlags-trans : {u v w : World D} → SameFlags u v → SameFlags v w → SameFlags u w
  SameFlags-trans a b = record {
    shl = b.shl ∙ a.shl;
    shr = b.shr ∙ a.shr;
    alt = b.alt ∙ a.alt;
    ctrl = b.ctrl ∙ a.ctrl;
  }

  SameFlags-refl : (w : World D) → SameFlags w w
  SameFlags-refl w = ground arith

  Quiet-SameFlags : {w w' : World D} → Quiet w w' → SameFlags w w'
  Quiet-SameFlags q = record { shl = q.shl; shr = q.shr; alt = q.alt; ctrl = q.ctrl }

module _ {D : Type 0} (p : Platform D) (phys : ℕ) where
  press_as-SameFlags :
      (m : EmitMode) (kc : Keycode) (w : World D) → SameFlags w (press_as p m kc phys w)
  unfolding stamp
  press_as-SameFlags m kc w = ground arith

  base_press-SameFlags : (w : World D) → SameFlags w (base_press p phys w)
  unfolding base_press rshift_supplement_down stamp
  base_press-SameFlags w = ground arith

  fn_press-SameFlags : (w : World D) → SameFlags w (fn_press p phys w)
  unfolding fn_press
  fn_press-SameFlags w = elim (Option-cases (lookup_fn_action phys)) [
    | inr (act, e) ↦
        rw (e, fn_press)
          (SameFlags-trans
            (SameFlags-trans (Quiet-SameFlags (fn_action_run-Quiet p act w)) (ground arith))
            (Quiet-SameFlags
              (stamp-Quiet p (set_slot phys emit_fn reserved (fn_action_run p act w)))))
    | inl e ↦
        rw (e, fn_press)
          (if_cases (SameFlags w) (is_code (lookup_fn_keycode phys w.ctx.mouse_mode)) _ _
            (λ _. press_as-SameFlags emit_fn _ w) (λ _. base_press-SameFlags w))
  ]

  plain_press-SameFlags : (w : World D) → SameFlags w (plain_press p phys w)
  unfolding plain_press
  plain_press-SameFlags w =
      if_cases (SameFlags w) w.ctx.phy_shr _ _ (λ _. fn_press-SameFlags w)
        (λ _. base_press-SameFlags w)

  arrow_press-SameFlags :
      (w : World D)
      → SameFlags w
          (stamp p (mouse_start_move p (arrow_dir phys) (set_slot phys emit_mouse reserved w)))
  arrow_press-SameFlags w =
      SameFlags-trans
        (SameFlags-trans {v = set_slot phys emit_mouse reserved w} (ground arith)
          (Quiet-SameFlags (mouse_start_move-Quiet p (arrow_dir phys) _)))
        (Quiet-SameFlags (stamp-Quiet p _))

  mouse_press-SameFlags : (w : World D) → SameFlags w (mouse_press p phys w)
  unfolding mouse_press
  mouse_press-SameFlags w =
      if_cases (SameFlags w) (is_arrow phys) _ _ (λ _. arrow_press-SameFlags w)
        λ _.
          if_cases (SameFlags w) (phys == pk_lbracket) _ _
            (λ _. press_as-SameFlags emit_mouse btn_left w)
            λ _.
              if_cases (SameFlags w) (phys == pk_rbracket) _ _
                (λ _. press_as-SameFlags emit_mouse btn_right w) (λ _. plain_press-SameFlags w)

  key_press-SameFlags : (w : World D) → SameFlags w (key_press p phys w)
  unfolding key_press
  key_press-SameFlags w =
      if_cases (SameFlags w) (not (is_none (w.ctx.key_state phys).emit_mode)) _ _
        (λ _. SameFlags-refl w)
        λ _.
          if_cases (SameFlags w) (w.ctx.mouse_mode && not w.ctx.phy_shr && is_mouse_key phys) _ _
            (λ _. mouse_press-SameFlags w) (λ _. plain_press-SameFlags w)

  release_slot-SameFlags :
      (m : EmitMode) (kc : Keycode) (w : World D) → SameFlags w (release_slot m kc phys w)
  unfolding release_slot
  release_slot-SameFlags emit_mouse kc w =
      let s = Quiet-SameFlags (mouse_stop_move-Quiet (arrow_dir phys) w) in
      ground (arith, s.shl, s.shr, s.alt, s.ctrl)
  release_slot-SameFlags emit_none kc w = SameFlags-refl w
  release_slot-SameFlags _ kc w = ground arith

  key_release-SameFlags : (w : World D) → SameFlags w (key_release p phys w)
  unfolding key_release
  key_release-SameFlags w =
      let slot = w.ctx.key_state phys in
      let w1 = release_slot slot.emit_mode slot.keycode phys w in
      SameFlags-trans
        (SameFlags-trans (release_slot-SameFlags slot.emit_mode slot.keycode w) (ground arith))
        (Quiet-SameFlags (stamp-Quiet p (set_slot phys emit_none reserved w1)))

  key_body-SameFlags :
      (press release : Bool) (w : World D) → SameFlags w (key_body p phys press release w)
  unfolding key_body
  key_body-SameFlags press release w =
      if_cases (SameFlags w) release _ _ (λ _. key_release-SameFlags w)
        λ _. if_cases (SameFlags w) press _ _ (λ _. key_press-SameFlags w) (λ _. SameFlags-refl w)

module _ {D : Type 0} (p : Platform D) where
  toggle_mouse_mode-SameFlags : (w : World D) → SameFlags w (toggle_mouse_mode p w)
  unfolding toggle_mouse_mode rshift_supplement_up
  toggle_mouse_mode-SameFlags w =
      SameFlags-trans (ground arith) (Quiet-SameFlags (trigger_backlight_flash-Quiet p _))

  capslock_key-SameFlags :
      (press release : Bool) (w : World D) → SameFlags w (capslock_key p press release w)
  unfolding capslock_key stamp
  capslock_key-SameFlags press release w =
      let s = toggle_mouse_mode-SameFlags w in ground (arith, s.shl, s.shr, s.alt, s.ctrl)

  -- The flags behind a key, by its press: those of the other modifiers are as they were.
  pub record Flags (phys : ℕ) (press : Bool) (w w' : World D) : Type 0 where
    pub shl : w'.ctx.phy_shl ≡ (if phys == pk_lshift then press else w.ctx.phy_shl)
    pub shr : w'.ctx.phy_shr ≡ (if phys == pk_rshift then press else w.ctx.phy_shr)
    pub alt : w'.ctx.phy_alt ≡ (if phys == pk_lalt then press else w.ctx.phy_alt)
    pub ctrl : w'.ctx.phy_ctrl ≡ (if phys == pk_lctrl then press else w.ctx.phy_ctrl)

  special_key-Flags :
      (phys : ℕ) (press release : Bool) (w : World D)
      → Flags phys press w (special_key p phys press release w)
  unfolding special_key lshift_key rshift_key lalt_key lctrl_key stamp rshift_supplement_up
  special_key-Flags phys press release w =
      let c = capslock_key-SameFlags press release w in
      let k = key_body-SameFlags p phys press release w in
      ground (arith, c.shl, c.shr, c.alt, c.ctrl, k.shl, k.shr, k.alt, k.ctrl)

  pub key_dispatch-Flags :
      (phys state : ℕ) (w : World D)
      → state ≢ key_state_hold
      → Flags phys (state == key_state_pressed) w (key_dispatch p phys state w)
  unfolding key_dispatch
  key_dispatch-Flags phys state w edge =
      let s = special_key-Flags phys (state == key_state_pressed) (state == key_state_released) w in
      ground (arith, edge, s.shl, s.shr, s.alt, s.ctrl)

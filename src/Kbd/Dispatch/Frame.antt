-- ===== src/Kbd/Dispatch/Frame.antt =====
-- Which slot an event writes, and what a press and a release of an ordinary key report.
use picocalc_ubuntu_kernel.Prelude.{
  if_cases, ==_ne, ℕ, ◌<◌, ◌≡◌, refl, ◌∙◌, ◌≢◌, inl, inr, not, ◌&&◌, ◌==◌, Option-cases, arith, ap,
  ◌||◌, ==_self, false, true,
}
use picocalc_ubuntu_kernel.Input.{Keycode, reserved, btn_left, btn_right}
use picocalc_ubuntu_kernel.Platform.{Platform}
use picocalc_ubuntu_kernel.Kbd.Phys.{
  pk_max, pk_none, pk_power, pk_lshift, pk_rshift, pk_lalt, pk_lctrl, pk_lbracket, pk_rbracket,
  pk_capslock,
}
use picocalc_ubuntu_kernel.Kbd.Context.{
  World, EmitMode, emit_none, emit_fn, emit_mouse, is_none, is_code, set_slot, stamp,
}
use picocalc_ubuntu_kernel.Kbd.Tables.{lookup_fn_keycode, lookup_fn_action}
use picocalc_ubuntu_kernel.Kbd.Dispatch.{
  key_press, base_press, fn_press, is_mouse_key, key_release, mouse_press, mouse_start_move,
  plain_press, press_as, release_slot, arrow_dir, is_arrow, rshift_supplement_down, capslock_key,
  key_body, key_dispatch, lshift_key, rshift_key, special_key, toggle_mouse_mode, Bool,
  key_state_pressed, key_state_released, lalt_key, rshift_supplement_up, lctrl_key, leb,
  key_state_hold,
}
use picocalc_ubuntu_kernel.Kbd.Dispatch.Quiet.{
  stamp-Quiet, mouse_start_move-Quiet, mouse_stop_move-Quiet, fn_action_run-Quiet,
  trigger_backlight_flash-Quiet,
}

-- Every slot but that of `phys` is as it was.
abbrev pub SameBut : {D : Type 0} → ℕ → World D → World D → Type 0
SameBut phys w w' = (q : ℕ) → phys ≢ q → w'.ctx.key_state q ≡ w.ctx.key_state q

-- A key that is neither a modifier, caps lock nor the power key.
pub record IsOrdinary (phys : ℕ) : Type 0 where
  pub some_key : phys ≢ pk_none
  pub fits : phys < pk_max
  pub not_power : phys ≢ pk_power
  pub not_lshift : phys ≢ pk_lshift
  pub not_rshift : phys ≢ pk_rshift
  pub not_lalt : phys ≢ pk_lalt
  pub not_lctrl : phys ≢ pk_lctrl
  pub not_capslock : phys ≢ pk_capslock

-- The modifiers, caps lock, the power key and what is no key have slots that stay as they are.
unfoldable pub has_slot : ℕ → Bool
has_slot phys = not (
    phys == pk_none
    || leb pk_max phys
    || phys == pk_power
    || phys == pk_lshift
    || phys == pk_rshift
    || phys == pk_lalt
    || phys == pk_lctrl
    || phys == pk_capslock)

module _ {D : Type 0} (p : Platform D) (phys : ℕ) where
  base_press-SameBut : (w : World D) → SameBut phys w (base_press p phys w)
  unfolding base_press rshift_supplement_down stamp
  base_press-SameBut w q ne = ground arith

  press_as-SameBut :
      (m : EmitMode) (kc : Keycode) (w : World D) → SameBut phys w (press_as p m kc phys w)
  unfolding stamp
  press_as-SameBut m kc w q ne = ground arith

  fn_press-SameBut : (w : World D) → SameBut phys w (fn_press p phys w)
  unfolding fn_press
  fn_press-SameBut w q ne = elim (Option-cases (lookup_fn_action phys)) [
    | inr (act, e) ↦
        rw (e, fn_press)
          (ap (λ s. s q) (stamp-Quiet p _).slots
            ∙ (rw (==_ne phys q ne) (ap (λ s. s q) (fn_action_run-Quiet p act w).slots)))
    | inl e ↦
        rw (e, fn_press)
          (if_cases (SameBut phys w) (is_code (lookup_fn_keycode phys w.ctx.mouse_mode)) _ _
            (λ _. press_as-SameBut emit_fn _ w) (λ _. base_press-SameBut w) q ne)
  ]

  plain_press-SameBut : (w : World D) → SameBut phys w (plain_press p phys w)
  unfolding plain_press
  plain_press-SameBut w =
      if_cases (SameBut phys w) w.ctx.phy_shr _ _ (λ _. fn_press-SameBut w)
        (λ _. base_press-SameBut w)

  arrow_press-SameBut :
      (w : World D)
      → SameBut phys w
          (stamp p (mouse_start_move p (arrow_dir phys) (set_slot phys emit_mouse reserved w)))
  arrow_press-SameBut w q ne =
      ap (λ s. s q) (stamp-Quiet p _).slots
      ∙ ap (λ s. s q) (mouse_start_move-Quiet p (arrow_dir phys) _).slots
      ∙ rw (==_ne phys q ne)

  mouse_press-SameBut : (w : World D) → SameBut phys w (mouse_press p phys w)
  unfolding mouse_press
  mouse_press-SameBut w =
      if_cases (SameBut phys w) (is_arrow phys) _ _ (λ _. arrow_press-SameBut w)
        λ _.
          if_cases (SameBut phys w) (phys == pk_lbracket) _ _
            (λ _. press_as-SameBut emit_mouse btn_left w)
            λ _.
              if_cases (SameBut phys w) (phys == pk_rbracket) _ _
                (λ _. press_as-SameBut emit_mouse btn_right w) (λ _. plain_press-SameBut w)

  key_press-SameBut : (w : World D) → SameBut phys w (key_press p phys w)
  unfolding key_press
  key_press-SameBut w =
      if_cases (SameBut phys w) (not (is_none (w.ctx.key_state phys).emit_mode)) _ _
        (λ _ q ne. refl)
        λ _.
          if_cases (SameBut phys w) (w.ctx.mouse_mode && not w.ctx.phy_shr && is_mouse_key phys) _ _
            (λ _. mouse_press-SameBut w) (λ _. plain_press-SameBut w)

  release_slot-slots :
      (m : EmitMode) (kc : Keycode) (w : World D)
      → (release_slot m kc phys w).ctx.key_state ≡ w.ctx.key_state
  unfolding release_slot
  release_slot-slots emit_mouse kc w =
      ground (arith, (mouse_stop_move-Quiet (arrow_dir phys) w).slots)
  release_slot-slots emit_none kc w = refl
  release_slot-slots _ kc w = refl

  key_release-SameBut : (w : World D) → SameBut phys w (key_release p phys w)
  unfolding key_release
  key_release-SameBut w q ne =
      ap (λ s. s q) (stamp-Quiet p _).slots
      ∙ (rw (==_ne phys q ne) (
          ap (λ s. s q)
            (release_slot-slots (w.ctx.key_state phys).emit_mode (w.ctx.key_state phys).keycode w)))

  key_body-SameBut :
      (press release : Bool) (w : World D) → SameBut phys w (key_body p phys press release w)
  unfolding key_body
  key_body-SameBut press release w =
      if_cases (SameBut phys w) release _ _ (λ _. key_release-SameBut w)
        λ _. if_cases (SameBut phys w) press _ _ (λ _. key_press-SameBut w) (λ _ q ne. refl)

module _ {D : Type 0} (p : Platform D) where
  rshift_key-slots :
      (press release : Bool) (w : World D)
      → (rshift_key press release w).ctx.key_state ≡ w.ctx.key_state
  unfolding rshift_key rshift_supplement_up
  rshift_key-slots press release w = ground arith

  toggle_mouse_mode-slots : (w : World D) → (toggle_mouse_mode p w).ctx.key_state ≡ w.ctx.key_state
  unfolding toggle_mouse_mode rshift_supplement_up
  toggle_mouse_mode-slots w = (trigger_backlight_flash-Quiet p _).slots ∙ ground arith

  capslock_key-slots :
      (press release : Bool) (w : World D)
      → (capslock_key p press release w).ctx.key_state ≡ w.ctx.key_state
  unfolding capslock_key stamp
  capslock_key-slots press release w = ground (arith, toggle_mouse_mode-slots w)

  modifier-slots :
      (press release : Bool) (w : World D)
      → ((lshift_key p press release w).ctx.key_state ≡ w.ctx.key_state)
        × ((lalt_key p press release w).ctx.key_state ≡ w.ctx.key_state)
        × ((lctrl_key p press release w).ctx.key_state ≡ w.ctx.key_state)
  unfolding lshift_key lalt_key lctrl_key stamp
  modifier-slots press release w = ground arith

  special_key-SameBut :
      (phys : ℕ) (press release : Bool) (w : World D)
      → SameBut phys w (special_key p phys press release w)
  unfolding special_key
  special_key-SameBut phys press release w =
      let P = SameBut phys w in
      let same = modifier-slots press release w in
      if_cases P (phys == pk_lshift) _ _ (λ _ q _. ap (λ s. s q) same.0)
        λ _.
          if_cases P (phys == pk_rshift) _ _
            (λ _ q _. ap (λ s. s q) (rshift_key-slots press release w))
            λ _.
              if_cases P (phys == pk_lalt) _ _ (λ _ q _. ap (λ s. s q) same.1)
                λ _.
                  if_cases P (phys == pk_lctrl) _ _ (λ _ q _. ap (λ s. s q) same.2)
                    λ _.
                      if_cases P (phys == pk_capslock) _ _
                        (λ _ q _. ap (λ s. s q) (capslock_key-slots press release w))
                        (λ _. key_body-SameBut p phys press release w)

  pub key_dispatch-SameBut :
      (phys state : ℕ) (w : World D) → SameBut phys w (key_dispatch p phys state w)
  unfolding key_dispatch
  key_dispatch-SameBut phys state w =
      let P = SameBut phys w in
      if_cases P (phys == pk_none || leb pk_max phys) _ _ (λ _ q _. refl)
        λ _.
          if_cases P (phys == pk_power) _ _ (λ _ q _. refl)
            λ _.
              if_cases P (state == key_state_hold) _ _ (λ _ q _. refl)
                λ _.
                  special_key-SameBut phys (state == key_state_pressed)
                    (state == key_state_released) w

  -- An event of one key, whatever the mode and the modifiers, leaves the slot of every other key as
  -- it was.
  pub other_keys_kept :
      (phys state q : ℕ) (w : World D)
      → phys ≢ q
      → (key_dispatch p phys state w).ctx.key_state q ≡ w.ctx.key_state q
  other_keys_kept phys state q w ne = key_dispatch-SameBut phys state w q ne

  -- An ordinary key reaches the press and release paths.
  pub key_dispatch-press :
      (phys : ℕ) (w : World D)
      → IsOrdinary phys
      → key_dispatch p phys key_state_pressed w ≡ key_press p phys w
  unfolding key_dispatch special_key key_body
  key_dispatch-press phys w o = ground arith

  pub key_dispatch-release :
      (phys : ℕ) (w : World D)
      → IsOrdinary phys
      → key_dispatch p phys key_state_released w ≡ key_release p phys w
  unfolding key_dispatch special_key key_body
  key_dispatch-release phys w o = ground arith

  pub special-slots :
      (phys state : ℕ) (w : World D)
      → has_slot phys ≡ false
      → (key_dispatch p phys state w).ctx.key_state ≡ w.ctx.key_state
  unfolding key_dispatch special_key has_slot
  special-slots phys state w h =
      let press = state == key_state_pressed in
      let release = state == key_state_released in
      let same = modifier-slots press release w in
      ground (
        arith,
        h,
        same.0,
        same.1,
        same.2,
        rshift_key-slots press release w,
        capslock_key-slots press release w,
      )

  key_release-slot :
      (phys : ℕ) (w : World D) → ((key_release p phys w).ctx.key_state phys).emit_mode ≡ emit_none
  unfolding key_release
  key_release-slot phys w =
      ap (λ s. (s phys).emit_mode) (stamp-Quiet p _).slots ∙ rw (==_self phys) refl

  pub released-slot :
      (phys : ℕ) (w : World D)
      → has_slot phys ≡ true
      → ((key_dispatch p phys key_state_released w).ctx.key_state phys).emit_mode ≡ emit_none
  unfolding has_slot
  released-slot phys w h =
      rw (key_dispatch-release phys w (ground (arith, h))) (key_release-slot phys w)

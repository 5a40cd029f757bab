-- ===== src/Kbd/Dispatch/Modifiers.antt =====
-- The modifier keys and caps lock keep the invariant.
use picocalc_ubuntu_kernel.Prelude.{
  if_cases, ℕ, ◌≡◌, refl, ◌∙◌, ◌≢◌, Bool, true, false, not, ◌&&◌, ◌||◌, if◌then◌else◌, arith,
}
use picocalc_ubuntu_kernel.Input.{
  Keycode, reserved, key_capslock, key_leftshift, key_rightshift, key_leftalt, key_leftctrl,
  is_down, report_key,
}
use picocalc_ubuntu_kernel.Platform.{Platform}
use picocalc_ubuntu_kernel.Kbd.Context.{World, emit, stamp, on_ctx}
use picocalc_ubuntu_kernel.Kbd.Tables.{phys_to_base_keycode}
use picocalc_ubuntu_kernel.Kbd.Tables.Facts.{IsPlain}
use picocalc_ubuntu_kernel.Kbd.Dispatch.{
  rshift_supplement_down, lalt_key, lctrl_key, lshift_key, rshift_key, capslock_key,
  rshift_supplement_up, toggle_mouse_mode,
}
use picocalc_ubuntu_kernel.Kbd.Dispatch.Quiet.{trigger_backlight_flash-Quiet}
use picocalc_ubuntu_kernel.Kbd.Dispatch.Invariant.{Inv, Quiet-Inv, IsFree}

-- Only the code `j` may change its state, and no slot does.
record Only {D : Type 0} (j : Keycode) (w w' : World D) : Type 0 where
  slots : w'.ctx.key_state ≡ w.ctx.key_state
  held : (k : Keycode) → j ≢ k → is_down k w'.out ≡ is_down k w.out

abbrev Free : {D : Type 0} → World D → Type 0
Free w =
    (k : Keycode)
    → IsPlain k
    → k ≢ reserved
    → ((q : ℕ) → IsFree k (w.ctx.key_state q))
    → is_down k w.out ≡ false

module _ {D : Type 0} where
  Only-Free :
      (j : Keycode) (w w' : World D)
      → ((k : Keycode) → IsPlain k → j ≢ k)
      → Only j w w'
      → Free w
      → Free w'
  Only-Free j w w' other o i k h n f = o.held k (other k h) ∙ i k h n (λ q. (rw o.slots at (f q)))

  Only-Inv :
      (j : Keycode) (w w' : World D)
      → ((k : Keycode) → IsPlain k → j ≢ k)
      → Only j w w'
      → (is_down key_leftshift w'.out ≡ w'.ctx.phy_shl)
        × (is_down key_leftalt w'.out ≡ w'.ctx.phy_alt)
        × (is_down key_leftctrl w'.out ≡ w'.ctx.phy_ctrl)
        × (is_down key_rightshift w'.out ≡ w'.ctx.rshift_reported)
        × (w'.ctx.rshift_reported ≡ true → w'.ctx.phy_shr ≡ true)
      → Inv w
      → Inv w'
  Only-Inv j w w' other o flags i = record {
    slots = λ q. rw o.slots (i.slots q);
    shl = flags.0;
    alt = flags.1;
    ctrl = flags.2;
    shr = flags.3;
    supplement = flags.4;
    free = Only-Free j w w' other o i.free;
  }

  pub rshift_supplement_down-Inv : (w : World D) → Inv w → Inv (rshift_supplement_down w)
  unfolding rshift_supplement_down is_down
  rshift_supplement_down-Inv w i =
      Only-Inv key_rightshift w (rshift_supplement_down w) (λ k h. ground arith)
        (record { slots = ground arith; held = λ k ne. ground arith }) (ground arith) i

  rshift_supplement_up-Inv : (w : World D) → Inv w → Inv (rshift_supplement_up w)
  unfolding rshift_supplement_up is_down
  rshift_supplement_up-Inv w i =
      Only-Inv key_rightshift w (rshift_supplement_up w) (λ k h. ground arith)
        (record { slots = ground arith; held = λ k ne. ground arith }) (ground arith) i

  pub rshift_supplement_down-slots :
      (w : World D) → (rshift_supplement_down w).ctx.key_state ≡ w.ctx.key_state
  unfolding rshift_supplement_down
  rshift_supplement_down-slots w = ground arith

  -- A key that is pressed or released: `release` is the negation of `press`.
  pub rshift_key-Inv : (press : Bool) (w : World D) → Inv w → Inv (rshift_key press (not press) w)
  unfolding rshift_key rshift_supplement_up is_down
  rshift_key-Inv press w i =
      Only-Inv key_rightshift w (rshift_key press (not press) w) (λ k h. ground arith)
        (record { slots = ground arith; held = λ k ne. ground arith }) (ground arith) i

module _ {D : Type 0} (p : Platform D) where
  pub lshift_key-Inv : (press : Bool) (w : World D) → Inv w → Inv (lshift_key p press (not press) w)
  unfolding lshift_key is_down stamp
  lshift_key-Inv press w i =
      Only-Inv key_leftshift w (lshift_key p press (not press) w) (λ k h. ground arith)
        (record { slots = ground arith; held = λ k ne. ground arith }) (ground arith) i

  pub lalt_key-Inv : (press : Bool) (w : World D) → Inv w → Inv (lalt_key p press (not press) w)
  unfolding lalt_key is_down stamp
  lalt_key-Inv press w i =
      Only-Inv key_leftalt w (lalt_key p press (not press) w) (λ k h. ground arith)
        (record { slots = ground arith; held = λ k ne. ground arith }) (ground arith) i

  pub lctrl_key-Inv : (press : Bool) (w : World D) → Inv w → Inv (lctrl_key p press (not press) w)
  unfolding lctrl_key is_down stamp
  lctrl_key-Inv press w i =
      Only-Inv key_leftctrl w (lctrl_key p press (not press) w) (λ k h. ground arith)
        (record { slots = ground arith; held = λ k ne. ground arith }) (ground arith) i

  toggle_mouse_mode-Inv : (w : World D) → Inv w → Inv (toggle_mouse_mode p w)
  unfolding toggle_mouse_mode is_down
  toggle_mouse_mode-Inv w i = Quiet-Inv (trigger_backlight_flash-Quiet p _) (
      rshift_supplement_up-Inv _ (
        Quiet-Inv {w = w}
          (record {
            slots = refl;
            shl = refl;
            shr = refl;
            alt = refl;
            ctrl = refl;
            reported = refl;
            held = λ k. refl;
          })
          i))

  caps_reported : Bool → World D → World D
  caps_reported press w =
      let reported = emit (report_key key_capslock press) w in
      let toggled = on_ctx (λ c. record c { capslock = not c.capslock }) reported in
      stamp p (if press || not press then (if press then toggled else reported) else w)

  pub capslock_key-Inv :
      (press : Bool) (w : World D) → Inv w → Inv (capslock_key p press (not press) w)
  unfolding capslock_key phys_to_base_keycode caps_reported stamp is_down
  capslock_key-Inv press w i =
      if_cases Inv (press && w.ctx.phy_shr) _ _ (λ _. toggle_mouse_mode-Inv w i)
        λ _.
          Only-Inv key_capslock w (caps_reported press w) (λ k h. ground arith)
            (record { slots = ground arith; held = λ k ne. ground arith }) (ground arith) i

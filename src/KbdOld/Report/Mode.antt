-- ===== src/KbdOld/Report/Mode.antt =====
-- What an event of the v1.2 driver does to the shift status, the mouse mode and the movement bits.
use picocalc_ubuntu_kernel.KbdOld.Codes.{keycodes}
use picocalc_ubuntu_kernel.Prelude.{
  Option, arith, if_cases, ◌≡◌, Bool, if◌then◌else◌, some, none, ℕ, ◌==◌, List, ◌&&◌, not, ◌||◌,
  ◌∷◌, suc, [], true, false, Bool-cases, inr, inl, Option-cases, subst, ap, sym, ◌∙◌, refl,
}
use picocalc_ubuntu_kernel.Platform.{Platform}
use picocalc_ubuntu_kernel.Input.{Keycode, same_code, key_i, key_insert, reserved, key_unknown}
use picocalc_ubuntu_kernel.KbdOld.Context.{
  FifoItem, World, key, stamp, key_state_pressed, key_state_released, on_ctx,
}
use picocalc_ubuntu_kernel.KbdOld.Fn.{
  FnMap, fn_keycodes, fn_rows, proccess_fn_key, press_row, release_row, matches,
}
use picocalc_ubuntu_kernel.KbdOld.Report.{
  key_report_event, insert_key, mouse_key, plain_key, is_press, is_release, keyboard_key, is_hold,
  track_shift,
}

-- The states that key_report_event handles.
abbrev pub acts : FifoItem → Bool
acts ev = is_press ev || is_release ev || is_hold ev

-- The shift status and the mouse mode are the same.
pub record SameStatus {D : Type 0} (w w' : World D) : Type 0 where
  pub shr : w'.ctx.phy_shr ≡ w.ctx.phy_shr
  pub shl : w'.ctx.phy_shl ≡ w.ctx.phy_shl
  pub mode : w'.ctx.mouse_mode ≡ w.ctx.mouse_mode

-- And the movement bits.
pub record SameMode {D : Type 0} (w w' : World D) : Type 0 where
  pub status : SameStatus w w'
  pub dirs : w'.ctx.mouse_move_dir ≡ w.ctx.mouse_move_dir

module _ {D : Type 0} where
  SameMode-refl : (w : World D) → SameMode w w
  SameMode-refl w = ground arith

  fn_rows-SameMode :
      (n : ℕ) (rows : List FnMap) (ev : FifoItem) (w : World D) → SameMode w (fn_rows n rows ev w).1
  unfolding fn_rows press_row release_row
  fn_rows-SameMode n [] ev w = SameMode-refl w
  fn_rows-SameMode n (row ∷ rows) ev w =
      if_cases (λ (r : Bool × World D). SameMode w r.1) (matches ev.scancode row) _ _
        (λ _. ground arith) (λ _. fn_rows-SameMode (suc n) rows ev w)

  proccess_fn_key-SameMode : (ev : FifoItem) (w : World D) → SameMode w (proccess_fn_key ev w).1
  unfolding proccess_fn_key
  proccess_fn_key-SameMode ev w =
      if_cases (λ (r : Bool × World D). SameMode w r.1)
        (ev.state == key_state_pressed || ev.state == key_state_released) _ _
        (λ _. fn_rows-SameMode 0 fn_keycodes ev w) (λ _. SameMode-refl w)

  pub insert_key-SameDirs :
      (ev : FifoItem) (w : World D)
      → let w' = insert_key ev w in
        (w'.ctx.mouse_move_dir ≡ w.ctx.mouse_move_dir)
        × (w'.ctx.phy_shr ≡ w.ctx.phy_shr)
        × (w'.ctx.phy_shl ≡ w.ctx.phy_shl)
        × (w'.ctx.mouse_mode ≡ (
            if is_press ev && (w.ctx.phy_shr && not w.ctx.phy_shl)
            then not w.ctx.mouse_mode
            else w.ctx.mouse_mode))
  unfolding insert_key
  insert_key-SameDirs ev w = ground arith

module _ {D : Type 0} (p : Platform D) where
  stamp-SameMode : (v w : World D) → SameMode v w → SameMode v (stamp p w)
  unfolding stamp
  stamp-SameMode v w s = ground (arith, s)

  key-SameMode : (j : Keycode) (b : Bool) (v w : World D) → SameMode v w → SameMode v (key j b w)
  key-SameMode j b v w s = ground (arith, s)

  insert_up-SameMode :
      (v w : World D)
      → SameMode v w
      → SameMode v (on_ctx (λ c. record c { virtual_ins = false }) (key key_insert false w))
  insert_up-SameMode v w s = ground (arith, s)

  plain_key-SameMode :
      (ev : FifoItem) (v w : World D) → SameMode v w → SameMode v (plain_key p ev w)
  unfolding plain_key
  plain_key-SameMode ev v w s =
      let c = keycodes ev.scancode in
      if_cases (SameMode v) (same_code c key_i && w.ctx.virtual_ins) _ _
        (λ _. insert_up-SameMode v w s)
        λ _.
          if_cases (SameMode v) (same_code c reserved || same_code c key_unknown) _ _ (λ _. s)
            λ _.
              if_cases (SameMode v) (is_hold ev) _ _ (λ _. stamp-SameMode v w s)
                (λ _. key-SameMode c (is_press ev) v (stamp p w) (stamp-SameMode v w s))

  -- The switch of the mouse mode keeps the status.
  MovedSame : World D → Option (World D) → Type 0
  MovedSame w none = Unit
  MovedSame w (some w') = SameStatus w w'

  mouse_key-Same : (ev : FifoItem) (w : World D) → MovedSame w (mouse_key p ev w)
  unfolding mouse_key MovedSame stamp
  mouse_key-Same ev w = ground arith

  keyboard_key-SameMode :
      (ev : FifoItem) (w : World D)
      → (ev.scancode == 0xd1) ≡ false
      → SameMode w (keyboard_key p ev w)
  unfolding keyboard_key
  keyboard_key-SameMode ev w other =
      let r = proccess_fn_key ev w in
      let s = proccess_fn_key-SameMode ev w in
      if_cases (SameMode w) (ev.scancode == 0xd1) _ _ (λ e. absurd (ground (arith, e, other)))
        λ _.
          if_cases (SameMode w) r.0 _ _ (λ _. stamp-SameMode w r.1 s)
            (λ _. plain_key-SameMode ev w r.1 s)

  event_by :
      (ev : FifoItem) (w : World D) (o : Option (World D))
      → let w1 = track_shift ev w in
        (if w1.ctx.mouse_mode then mouse_key p ev w1 else none) ≡ o
        → acts ev ≡ true
        → key_report_event p ev w ≡ elim o [ some w2 ↦ w2 | none ↦ keyboard_key p ev w1 ]
  unfolding key_report_event
  event_by ev w o e a =
      let w1 = track_shift ev w in
      let next : Option (World D) → World D =
        λ r. elim r [ some w2 ↦ w2 | none ↦ keyboard_key p ev w1 ] in
      ap (λ b. if b then next (if w1.ctx.mouse_mode then mouse_key p ev w1 else none) else w) a
      ∙ ap next e

  -- An event of a key other than 0xD1, once the shift status is tracked.
  unfoldable pub Kept : World D → World D → Type 0
  Kept w1 w' = SameStatus w1 w' × (w1.ctx.mouse_mode ≡ false → SameMode w1 w')

  pub others-Kept :
      (ev : FifoItem) (w : World D)
      → acts ev ≡ true
      → (ev.scancode == 0xd1) ≡ false
      → Kept (track_shift ev w) (key_report_event p ev w)
  unfolding MovedSame Kept
  others-Kept ev w a other =
      let w1 = track_shift ev w in
      let kept = keyboard_key-SameMode ev w1 other in
      let choose = λ (b : Bool). if b then mouse_key p ev w1 else none in
      elim (Bool-cases w1.ctx.mouse_mode) [
        | inr off ↦
            subst (Kept w1) (sym (event_by ev w none (ap choose off) a)) (kept.status, λ _. kept)
        | inl on ↦ elim (Option-cases (mouse_key p ev w1)) [
          | inl e ↦
              subst (Kept w1) (sym (event_by ev w none (ap choose on ∙ e) a))
                (kept.status, λ _. kept)
          | inr (w2, e) ↦ subst (Kept w1) (sym (event_by ev w (some w2) (ap choose on ∙ e) a)) (
            subst (MovedSame w1) e (mouse_key-Same ev w1),
            λ off. absurd (ground (arith, on, off)),
          )
        ]
      ]

  no_move : (st : ℕ) (w : World D) → mouse_key p (record { state = st; scancode = 0xd1 }) w ≡ none
  unfolding mouse_key
  no_move st w = refl

  pub insert_event :
      (st : ℕ) (w : World D)
      → let ev : FifoItem = record { state = st; scancode = 0xd1 } in
        acts ev ≡ true → key_report_event p ev w ≡ insert_key ev w
  unfolding track_shift keyboard_key
  insert_event st w a =
      let ev : FifoItem = record { state = st; scancode = 0xd1 } in
      let choose = λ (b : Bool). if b then mouse_key p ev w else none in
      elim (Bool-cases w.ctx.mouse_mode) [
        | inl on ↦ event_by ev w none (ap choose on ∙ no_move st w) a
        | inr off ↦ event_by ev w none (ap choose off) a
      ]

-- ===== src/KbdOld/Report/Status.antt =====
-- The shift status and the mouse mode of the v1.2 driver, and what a switch of the mode leaves behind.
use picocalc_ubuntu_kernel.Prelude.{
  Bool, ℕ, ◌≡◌, arith, false, if◌then◌else◌, true, Bool-cases, subst, ◌&&◌, ◌==◌, inr, not, sym,
  ◌||◌, inl, ◌∷◌, [],
}
use picocalc_ubuntu_kernel.Platform.{Platform}
use picocalc_ubuntu_kernel.Input.{Keycode, is_down, key_pagedown, key_pageup}
use picocalc_ubuntu_kernel.KbdOld.Context.{FifoItem, World}
use picocalc_ubuntu_kernel.KbdOld.Report.{
  key_report_event, track_shift, insert_key, is_press, is_hold,
}
use picocalc_ubuntu_kernel.KbdOld.Report.Mode.{Kept, acts, others-Kept, insert_event}
use picocalc_ubuntu_kernel.KbdOld.Report.Pairing.{report_events, press, release}

-- The status behind an event, by the event and the status before it.
abbrev pub tracked : ℕ → Bool → FifoItem → Bool
tracked code before ev =
    if acts ev && ev.scancode == code then is_press ev || is_hold ev else before

abbrev pub switched : Bool → Bool → Bool → FifoItem → Bool
switched shr shl mode ev =
    if is_press ev && (ev.scancode == 0xd1 && (shr && not shl)) then not mode else mode

-- The scancodes and the page keys of the arrow up (true) and the arrow down.
abbrev pub arrow_scancode : Bool → ℕ
arrow_scancode up = if up then 0xb5 else 0xb6

abbrev pub page_scancode : Bool → ℕ
page_scancode up = if up then 0xd6 else 0xd7

abbrev pub page_code : Bool → Keycode
page_code up = if up then key_pageup else key_pagedown

module _ {D : Type 0} (p : Platform D) where
  AsTracked : FifoItem → World D → World D → Type 0
  AsTracked ev w w' =
      (w'.ctx.phy_shr ≡ tracked 0xa3 w.ctx.phy_shr ev)
      × (w'.ctx.phy_shl ≡ tracked 0xa2 w.ctx.phy_shl ev)
      × (w'.ctx.mouse_mode ≡ switched w.ctx.phy_shr w.ctx.phy_shl w.ctx.mouse_mode ev)
      × (w.ctx.mouse_mode ≡ false → w'.ctx.mouse_move_dir ≡ w.ctx.mouse_move_dir)

  idle-AsTracked :
      (ev : FifoItem) (w : World D) → acts ev ≡ false → AsTracked ev w (key_report_event p ev w)
  unfolding key_report_event AsTracked
  idle-AsTracked ev w idle = ground (arith, idle)

  other-AsTracked :
      (ev : FifoItem) (w w' : World D)
      → acts ev ≡ true
      → (ev.scancode == 0xd1) ≡ false
      → Kept p (track_shift ev w) w'
      → AsTracked ev w w'
  unfolding Kept AsTracked track_shift
  other-AsTracked ev w w' a other (status, off) = ground (arith, a, other, status, off)

  insert-AsTracked :
      (st : ℕ) (w : World D)
      → let ev : FifoItem = record { state = st; scancode = 0xd1 } in
        AsTracked ev w (insert_key ev w)
  unfolding AsTracked insert_key
  insert-AsTracked st w = ground arith

  at_insert :
      (ev : FifoItem) (w : World D)
      → acts ev ≡ true
      → ev.scancode ≡ 0xd1
      → AsTracked ev w (key_report_event p ev w)
  at_insert ev w a e =
      let with_code : ℕ → FifoItem = λ c. record { state = ev.state; scancode = c } in
      subst (λ c. AsTracked (with_code c) w (key_report_event p (with_code c) w)) (sym e)
        (subst (AsTracked (with_code 0xd1) w) (sym (insert_event p ev.state w a))
          (insert-AsTracked ev.state w))

  -- After any event the status of each shift is that of the shift's own last event (down for a press or
  -- a hold, up for a release) or, for another key, as it was; the mouse mode changes exactly when
  -- scancode 0xD1 is pressed with the right shift down and the left one up; and outside the mouse mode
  -- no event changes the movement bits, not even the release of the arrow that set one.
  pub status_by_event :
      (ev : FifoItem) (w : World D)
      → let w' = key_report_event p ev w in
        (w'.ctx.phy_shr ≡ tracked 0xa3 w.ctx.phy_shr ev)
        × (w'.ctx.phy_shl ≡ tracked 0xa2 w.ctx.phy_shl ev)
        × (w'.ctx.mouse_mode ≡ switched w.ctx.phy_shr w.ctx.phy_shl w.ctx.mouse_mode ev)
        × (w.ctx.mouse_mode ≡ false → w'.ctx.mouse_move_dir ≡ w.ctx.mouse_move_dir)
  unfolding AsTracked
  status_by_event ev w = elim (Bool-cases (acts ev)) [
    | inr idle ↦ idle-AsTracked ev w idle
    | inl a ↦ elim (Bool-cases (ev.scancode == 0xd1)) [
      | inr other ↦
          other-AsTracked ev w (key_report_event p ev w) a other (others-Kept p ev w a other)
      | inl insert ↦ at_insert ev w a (ground (arith, insert))
    ]
  ]

  -- In the mouse mode with the right shift down, an arrow up or down is pressed, whether the controller
  -- sends it as the page key or as the arrow. When the shift goes up before the arrow, whose release then
  -- comes as the arrow's, page up or page down stays down; when the arrow goes up first, it does not.
  pub page_key_sticks :
      (w : World D) (up as_page : Bool)
      → w.ctx.mouse_mode ≡ true
      → w.ctx.phy_shr ≡ true
      → let c = if as_page then page_scancode up else arrow_scancode up in
        (is_down
            (page_code up)
            (report_events p (press c ∷ release 0xa3 ∷ release (arrow_scancode up) ∷ []) w).out
          ≡ true)
        × (is_down (page_code up) (report_events p (press c ∷ release c ∷ release 0xa3 ∷ []) w).out
            ≡ false)
  unfolding report_events key_report_event is_down
  page_key_sticks w true true m r = ground (arith, m, r)
  page_key_sticks w true false m r = ground (arith, m, r)
  page_key_sticks w false true m r = ground (arith, m, r)
  page_key_sticks w false false m r = ground (arith, m, r)

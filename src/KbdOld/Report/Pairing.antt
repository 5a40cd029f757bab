-- ===== src/KbdOld/Report/Pairing.antt =====
-- A key of the first eight rows of fn_keycodes: whatever happens between its press and its release, the
-- release takes back the code that the press reported.
use picocalc_ubuntu_kernel.Prelude.{
  List, ℕ, All, Bool, ◌<◌, ◌∷◌, ◌≡◌, [], false, not, suc, true, ◌≢◌, arith, ap, zero, subst, sym,
}
use picocalc_ubuntu_kernel.Platform.{Platform}
use picocalc_ubuntu_kernel.Input.{Keycode, is_down, key_rightshift}
use picocalc_ubuntu_kernel.KbdOld.Context.{
  FifoItem, World, key_state_pressed, key_state_released, stamp,
}
use picocalc_ubuntu_kernel.KbdOld.Fn.{FnMap, matches, press_row, release_row}
use picocalc_ubuntu_kernel.KbdOld.Report.{key_report_event}
use picocalc_ubuntu_kernel.KbdOld.Report.Frame.{row_at, fn_key-ReachesRow, ReachesRow}
use picocalc_ubuntu_kernel.KbdOld.Report.Others.{code_row, Still}
use picocalc_ubuntu_kernel.KbdOld.Report.Kept.{key_report_event-Still, row-codes}

two_codes : (i : ℕ) → i < 8 → (row_at i).keycode1 ≢ (row_at i).keycode2
two_codes zero h = ground arith
two_codes (suc zero) h = ground arith
two_codes (suc (suc zero)) h = ground arith
two_codes (suc (suc (suc zero))) h = ground arith
two_codes (suc (suc (suc (suc zero)))) h = ground arith
two_codes (suc (suc (suc (suc (suc zero))))) h = ground arith
two_codes (suc (suc (suc (suc (suc (suc zero)))))) h = ground arith
two_codes (suc (suc (suc (suc (suc (suc (suc zero))))))) h = ground arith
two_codes (suc (suc (suc (suc (suc (suc (suc (suc i)))))))) h = absurd (omega (arith, h))

no_shift : (i : ℕ) (k : Keycode) → code_row k ≡ suc i → key_rightshift ≢ k
unfolding code_row
no_shift i k mine e = absurd (omega (arith, mine, ap code_row e))

module _ {D : Type 0} (i : ℕ) (row : FnMap) where
  Up : World D → Type 0
  Up w =
      (is_down row.keycode1 w.out ≡ false)
      × (is_down row.keycode2 w.out ≡ false)
      × (w.keycode2_pressed i ≡ false)

  -- One of the two codes is down, as the flag says.
  Pressed : Bool → World D → Type 0
  Pressed second w =
      (is_down row.keycode1 w.out ≡ not second)
      × (is_down row.keycode2 w.out ≡ second)
      × (w.keycode2_pressed i ≡ second)

  press_row-Pressed :
      (w : World D)
      → row.keycode1 ≢ row.keycode2
      → key_rightshift ≢ row.keycode1
      → key_rightshift ≢ row.keycode2
      → Up w
      → Pressed w.ctx.phy_shr (press_row i row w)
  unfolding press_row is_down Up Pressed
  press_row-Pressed w two one_s two_s up = ground (arith, two, one_s, two_s, up)

  release_row-Up :
      (second : Bool) (w : World D)
      → row.keycode1 ≢ row.keycode2
      → Pressed second w
      → Up (release_row i row w)
  unfolding release_row is_down Up Pressed
  release_row-Up second w two pressed = ground (arith, two, pressed)

  module _ (p : Platform D) where
    stamp-Pressed : (second : Bool) (w : World D) → Pressed second w → Pressed second (stamp p w)
    unfolding stamp Pressed
    stamp-Pressed second w h = h

    stamp-Up : (w : World D) → Up w → Up (stamp p w)
    unfolding stamp Up
    stamp-Up w h = h

-- Events of other keys.
abbrev pub OtherKeys : ℕ → List FifoItem → Type 0
OtherKeys i evs =
    All (λ (ev : FifoItem). (ev.scancode < 256) × (matches ev.scancode (row_at i) ≡ false)) evs

abbrev pub press : ℕ → FifoItem
press s = record { state = key_state_pressed; scancode = s }

abbrev pub release : ℕ → FifoItem
release s = record { state = key_state_released; scancode = s }

module _ {D : Type 0} (p : Platform D) where
  -- The events of a list, in their order.
  unfoldable pub report_events : List FifoItem → World D → World D
  report_events [] w = w
  report_events (ev ∷ evs) w = report_events evs (key_report_event p ev w)

  report_events-Still :
      (k : Keycode) (i : ℕ) (mine : code_row k ≡ suc i) (held flag : Bool) (evs : List FifoItem)
      (w : World D)
      → i < 8
      → OtherKeys i evs
      → Still k i mine held flag w
      → Still k i mine held flag (report_events evs w)
  unfolding report_events
  report_events-Still k i mine held flag [] w small others s = s
  report_events-Still k i mine held flag (ev ∷ evs) w small others s =
      report_events-Still k i mine held flag evs (key_report_event p ev w) small others.1
        (key_report_event-Still k i mine held flag p ev w small others.0.0 others.0.1 s)

  report_events-Pressed :
      (i : ℕ) (b : Bool) (evs : List FifoItem) (w : World D)
      → i < 8
      → OtherKeys i evs
      → Pressed i (row_at i) b w
      → Pressed i (row_at i) b (report_events evs w)
  unfolding Pressed Still
  report_events-Pressed i b evs w small others (one, two, flag) =
      let (mine1, mine2) = row-codes i small in
      let first =
        report_events-Still (row_at i).keycode1 i mine1 (not b) b evs w small others (one, flag) in
      let second =
        report_events-Still (row_at i).keycode2 i mine2 b b evs w small others (two, flag) in
      (first.0, second.0, first.1)

  -- For a row of the first eight: when neither of its codes is down and its flag is clear, the key is
  -- pressed with either of the row's scancodes, any events of other keys follow (shifts and the switch
  -- of the mouse mode among them), and the key is released with either scancode, then neither code is
  -- down and the flag is clear again.
  pub fn_release_paired :
      (i s s' : ℕ) (between : List FifoItem) (w : World D)
      → i < 8
      → matches s (row_at i) ≡ true
      → matches s' (row_at i) ≡ true
      → OtherKeys i between
      → is_down (row_at i).keycode1 w.out ≡ false
      → is_down (row_at i).keycode2 w.out ≡ false
      → w.keycode2_pressed i ≡ false
      → let w' =
          key_report_event p
            (release s')
            (report_events between (key_report_event p (press s) w)) in
        (is_down (row_at i).keycode1 w'.out ≡ false)
        × (is_down (row_at i).keycode2 w'.out ≡ false)
        × (w'.keycode2_pressed i ≡ false)
  unfolding Up Pressed ReachesRow
  fn_release_paired i s s' between w small m m' others up1 up2 clear =
      let row = row_at i in
      let (mine1, mine2) = row-codes i small in
      let b = w.ctx.phy_shr in
      let w1 = key_report_event p (press s) w in
      let pressed : Pressed i row b w1 =
        subst (Pressed i row b) (sym (fn_key-ReachesRow p i s small m w).0) (
          stamp-Pressed i row p b (press_row i row w) (
            press_row-Pressed i row w (two_codes i small) (no_shift i row.keycode1 mine1)
              (no_shift i row.keycode2 mine2) (up1, up2, clear))) in
      let w2 = report_events between w1 in
      let later = report_events-Pressed i b between w1 small others pressed in
      subst (Up i row) (sym (fn_key-ReachesRow p i s' small m' w2).1) (
        stamp-Up i row p (release_row i row w2)
          (release_row-Up i row b w2 (two_codes i small) later))

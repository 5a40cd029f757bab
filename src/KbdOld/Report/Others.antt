-- ===== src/KbdOld/Report/Others.antt =====
-- What an event of the v1.2 driver leaves alone: the codes and the flag of a row of fn_keycodes whose
-- scancodes it does not have.
use picocalc_ubuntu_kernel.Prelude.{
  ℕ, true, false, Bool, List, all_below, ◌≡◌, ◌≢◌, ap, not, suc, ◌∷◌, ◌&&◌, ◌||◌, ◌∙◌, [], arith,
  if_cases, ◌==◌, refl, Option, some, none, ==_ne, Bool-cases, inl, ◌⊎◌, inr,
}
use picocalc_ubuntu_kernel.Platform.{Platform}
use picocalc_ubuntu_kernel.Input.{
  Keycode, is_down, key_f1, Effect, key_f6, key_f2, report_key, key_f7, key_f3, key_rightshift,
  key_f8, key_f4, key_f9, key_f5, key_f10, key_esc, key_pause, key_tab, key_home, key_delete,
  key_end, Axis, key_insert, key_pagedown, key_leftalt, key_pageup, btn_right, key_enter, btn_left,
  rel_x, rel_y, same_code, key_i, reserved, key_unknown,
}
use picocalc_ubuntu_kernel.KbdOld.Codes.{keycodes}
use picocalc_ubuntu_kernel.KbdOld.Context.{FifoItem, World, key, stamp, MoveDir, key_state_pressed}
use picocalc_ubuntu_kernel.KbdOld.Fn.{
  FnMap, fn_keycodes, matches, fn_rows, press_row, release_row, set_keycode2,
}
use picocalc_ubuntu_kernel.KbdOld.Report.{
  button, page_key, track_shift, is_press, is_hold, insert_key, mouse_key, move_key, ℤ, is_release,
  pos, negsuc, plain_key,
}

-- The number, from 1, of the row of the first eight that has the code, and 0 for any other code.
unfoldable pub code_row : Keycode → ℕ
code_row key_f1 = 1
code_row key_f6 = 1
code_row key_f2 = 2
code_row key_f7 = 2
code_row key_f3 = 3
code_row key_f8 = 3
code_row key_f4 = 4
code_row key_f9 = 4
code_row key_f5 = 5
code_row key_f10 = 5
code_row key_esc = 6
code_row key_pause = 6
code_row key_tab = 7
code_row key_home = 7
code_row key_delete = 8
code_row key_end = 8
code_row _ = 0

apart : (j k : Keycode) → code_row j ≢ code_row k → j ≢ k
apart j k h e = h (ap code_row e)

is_down_other :
    (j k : Keycode) (b : Bool) (es : List Effect)
    → code_row j ≢ code_row k
    → is_down k (report_key j b ∷ es) ≡ is_down k es
unfolding is_down
is_down_other j k b es h = ground (arith, apart j k h)

-- A code of the table is none of the first eight rows unless proccess_fn_key takes the scancode.
unfoldable pub no_row : ℕ → List FnMap → Bool
no_row s [] = true
no_row s (row ∷ rows) = not (matches s row) && no_row s rows

pub table : all_below 256 (λ s. not (no_row s fn_keycodes) || code_row (keycodes s) == 0) ≡ true
unfolding all_below keycodes no_row code_row
table = refl

-- What stays: whether the code is down, and the flag.
module _ {D : Type 0} (k : Keycode) (i : ℕ) (own : code_row k ≡ suc i) (held flag : Bool) where
  unfoldable pub Still : World D → Type 0
  Still w = (is_down k w.out ≡ held) × (w.keycode2_pressed i ≡ flag)

  key-Still :
      (j : Keycode) (b : Bool) (w : World D) → code_row j ≢ suc i → Still w → Still (key j b w)
  unfolding Still
  key-Still j b w h (a, f) = (is_down_other j k b w.out (λ e. h (e ∙ own)) ∙ a, f)

  set_other : (n : ℕ) (b : Bool) (w : World D) → n ≢ i → Still w → Still (set_keycode2 n b w)
  unfolding Still
  set_other n b w ne s = rw (==_ne n i ne) s

  pub track_shift-Still : (ev : FifoItem) (w : World D) → Still w → Still (track_shift ev w)
  unfolding Still track_shift
  track_shift-Still ev w h = ground (arith, h)

  page_key-Still :
      (j : Keycode) (ev : FifoItem) (w : World D)
      → code_row j ≢ suc i
      → Still w
      → Still (page_key j ev w)
  unfolding page_key code_row
  page_key-Still j ev w h s = key-Still j (is_press ev) _ h (
      if_cases Still (is_press ev) _ _ (λ _. key-Still key_rightshift false w (omega arith) s)
        (λ _. s))

  button-Still :
      (j : Keycode) (ev : FifoItem) (w : World D)
      → code_row j ≢ suc i
      → Still w
      → Still (button j ev w)
  unfolding button
  button-Still j ev w h s =
      if_cases Still (is_hold ev) _ _ (λ _. s) (λ _. key-Still j (is_press ev) w h s)

  pub insert_key-Still : (ev : FifoItem) (w : World D) → Still w → Still (insert_key ev w)
  unfolding insert_key code_row Still
  insert_key-Still ev w s =
      let insert =
        λ (b : Bool) (w' : World D) (t : Still w'). key-Still key_insert b w' (omega arith) t in
      if_cases Still (is_press ev) _ _
        (λ _.
          if_cases Still (not w.ctx.phy_shl && not w.ctx.phy_shr) _ _
            (λ _.
              insert true (key key_leftalt false w) (key-Still key_leftalt false w (omega arith) s))
            (λ _.
              if_cases Still (not w.ctx.phy_shl && w.ctx.phy_shr) _ _ (λ _. s)
                (λ _.
                  if_cases Still (w.ctx.phy_shl && not w.ctx.phy_shr) _ _
                    (λ _. key-Still key_enter true w (omega arith) s) (λ _. s))))
        (λ _.
          if_cases Still (is_release ev) _ _
            (λ _.
              if_cases Still (not w.ctx.phy_shl && not w.ctx.phy_shr) _ _ (λ _. insert false w s)
                (λ _.
                  if_cases Still (w.ctx.phy_shl && not w.ctx.phy_shr) _ _
                    (λ _. key-Still key_enter false w (omega arith) s) (λ _. s)))
            (λ _. s))

  module _ (p : Platform D) where
    pub stamp-Still : (w : World D) → Still w → Still (stamp p w)
    unfolding stamp Still
    stamp-Still w s = s

    move_key-Still :
        (axis : Axis) (step : ℤ) (bit : MoveDir → Bool) (set : Bool → MoveDir → MoveDir)
        (ev : FifoItem) (w : World D)
        → Still w
        → Still (move_key p axis step bit set ev w)
    unfolding move_key Still is_down stamp
    move_key-Still axis step bit set ev w s = ground (arith, s)

    -- The mouse mode's switch, where it returns.
    unfoldable pub MovedStill : Option (World D) → Type 0
    MovedStill none = Unit
    MovedStill (some w) = Still w

    pub mouse_key-Still : (ev : FifoItem) (w : World D) → Still w → MovedStill (mouse_key p ev w)
    unfolding mouse_key MovedStill code_row
    mouse_key-Still ev w s =
        if_cases MovedStill (ev.scancode == 0xb7) _ _
          (λ _. move_key-Still rel_x (pos 3) (λ m. m.right) (λ b m. record m { right = b }) ev w s)
          λ _.
            if_cases MovedStill (ev.scancode == 0xb4) _ _
              (λ _.
                move_key-Still rel_x (negsuc 2) (λ m. m.left) (λ b m. record m { left = b }) ev w s)
              λ _.
                if_cases MovedStill (ev.scancode == 0xd7 || ev.scancode == 0xb6) _ _
                  (λ _.
                    if_cases Still w.ctx.phy_shr _ _
                      (λ _. page_key-Still key_pagedown ev w (omega arith) s)
                      (λ _.
                        move_key-Still rel_y (pos 3) (λ m. m.down) (λ b m. record m { down = b }) ev
                          w s))
                  λ _.
                    if_cases MovedStill (ev.scancode == 0xd6 || ev.scancode == 0xb5) _ _
                      (λ _.
                        if_cases Still w.ctx.phy_shr _ _
                          (λ _. page_key-Still key_pageup ev w (omega arith) s)
                          (λ _.
                            move_key-Still rel_y (negsuc 2) (λ m. m.up) (λ b m. record m { up = b })
                              ev w s))
                      λ _.
                        if_cases MovedStill (ev.scancode == 93 || ev.scancode == 125) _ _
                          (λ _. button-Still btn_right ev w (omega arith) s)
                          λ _.
                            if_cases MovedStill (ev.scancode == 91 || ev.scancode == 123) _ _
                              (λ _. button-Still btn_left ev w (omega arith) s) (λ _. tt)

    press_row-Still :
        (n : ℕ) (row : FnMap) (w : World D)
        → n ≢ i
        → code_row row.keycode1 ≢ suc i
        → code_row row.keycode2 ≢ suc i
        → Still w
        → Still (press_row n row w)
    unfolding press_row code_row
    press_row-Still n row w ne one two s =
        if_cases Still w.ctx.phy_shr _ _
          (λ _.
            set_other n true _ ne (
              key-Still row.keycode2 true _ two (key-Still key_rightshift false w (omega arith) s)))
          (λ _. key-Still row.keycode1 true w one s)

    release_row-Still :
        (n : ℕ) (row : FnMap) (w : World D)
        → n ≢ i
        → code_row row.keycode1 ≢ suc i
        → code_row row.keycode2 ≢ suc i
        → Still w
        → Still (release_row n row w)
    unfolding release_row
    release_row-Still n row w ne one two s =
        if_cases Still (w.keycode2_pressed n) _ _
          (λ _. set_other n false _ ne (key-Still row.keycode2 false w two s))
          (λ _. key-Still row.keycode1 false w one s)

    -- The rows from number `n` on, of which row `i` does not have the scancode.
    unfoldable pub Others : ℕ → List FnMap → ℕ → Type 0
    Others n [] c = Unit
    Others n (row ∷ rows) c =
        (matches c row ≡ true
          → (n ≢ i) × (code_row row.keycode1 ≢ suc i) × (code_row row.keycode2 ≢ suc i))
        × Others (suc n) rows c

    pub fn_rows-Still :
        (n : ℕ) (rows : List FnMap) (ev : FifoItem) (w : World D)
        → Others n rows ev.scancode
        → Still w
        → Still (fn_rows n rows ev w).1
    unfolding fn_rows Others
    fn_rows-Still n [] ev w o s = s
    fn_rows-Still n (row ∷ rows) ev w (first, rest) s =
        if_cases (λ (r : Bool × World D). Still r.1) (matches ev.scancode row) _ _
          (λ m.
            let (ne, one, two) = first m in
            if_cases Still (ev.state == key_state_pressed) _ _
              (λ _. press_row-Still n row w ne one two s)
              (λ _. release_row-Still n row w ne one two s))
          (λ _. fn_rows-Still (suc n) rows ev w rest s)

    pub no_row_handled :
        (n : ℕ) (rows : List FnMap) (ev : FifoItem) (w : World D)
        → (fn_rows n rows ev w).0 ≡ false
        → no_row ev.scancode rows ≡ true
    unfolding fn_rows no_row
    no_row_handled n [] ev w h = refl
    no_row_handled n (row ∷ rows) ev w h = elim (Bool-cases (matches ev.scancode row)) [
      | inl m ↦ absurd (ground (arith, m, h))
      | inr m ↦ ground (arith, m, h, no_row_handled (suc n) rows ev w)
    ]

    pub plain_key-Still :
        (ev : FifoItem) (w : World D)
        → (is_hold ev ≡ true) ⊎ (code_row (keycodes ev.scancode) ≡ 0)
        → Still w
        → Still (plain_key p ev w)
    unfolding plain_key code_row Still
    plain_key-Still ev w quiet s =
        if_cases Still (same_code (keycodes ev.scancode) key_i && w.ctx.virtual_ins) _ _
          (λ _. key-Still key_insert false w (omega arith) s)
          λ _.
            if_cases Still
              (same_code (keycodes ev.scancode) reserved
                || same_code (keycodes ev.scancode) key_unknown)
              _ _ (λ _. s)
              λ _.
                if_cases Still (is_hold ev) _ _ (λ _. stamp-Still w s)
                  λ no_hold. elim quiet [
                    | inl hold ↦ absurd (ground (arith, hold, no_hold))
                    | inr none_of ↦
                        key-Still (keycodes ev.scancode) (is_press ev) (stamp p w)
                          (omega (arith, none_of)) (stamp-Still w s)
                  ]

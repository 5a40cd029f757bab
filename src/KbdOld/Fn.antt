-- ===== src/KbdOld/Fn.antt =====
-- fn_keycodes and proccess_fn_key of picocalc_kbd.c for the v1.2 firmware. The flags of the rows stand
-- in the state; the constant columns stand here.
use picocalc_ubuntu_kernel.Prelude.{
  Bool, List, ℕ, false, if◌then◌else◌, update, ◌==◌, true, ◌||◌, ◌∷◌, suc, [],
}
use picocalc_ubuntu_kernel.Input.{
  Keycode, key_rightshift, key_f1, key_f6, key_f2, key_f7, key_f3, key_f8, key_f4, key_f9, key_f5,
  key_f10, key_esc, key_pause, key_tab, key_home, key_delete, key_end, key_up, key_pageup, key_down,
  key_pagedown,
}
use picocalc_ubuntu_kernel.KbdOld.Context.{
  FifoItem, World, key, key_state_pressed, key_state_released,
}

pub record FnMap : Type 0 where
  pub scancode1 : ℕ
  pub scancode2 : ℕ
  pub keycode1 : Keycode
  pub keycode2 : Keycode

abbrev pub fn_row : ℕ → ℕ → Keycode → Keycode → FnMap
fn_row s1 s2 k1 k2 = record { scancode1 = s1; scancode2 = s2; keycode1 = k1; keycode2 = k2 }

abbrev pub fn_keycodes : List FnMap
fn_keycodes =
    fn_row 0x81 0x86 key_f1 key_f6
    ∷ fn_row 0x82 0x87 key_f2 key_f7
    ∷ fn_row 0x83 0x88 key_f3 key_f8
    ∷ fn_row 0x84 0x89 key_f4 key_f9
    ∷ fn_row 0x85 0x90 key_f5 key_f10
    ∷ fn_row 0xb1 0xd0 key_esc key_pause
    ∷ fn_row 0x09 0xd2 key_tab key_home
    ∷ fn_row 0xd4 0xd5 key_delete key_end
    ∷ fn_row 0xb5 0xd6 key_up key_pageup
    ∷ fn_row 0xb6 0xd7 key_down key_pagedown
    ∷ []

abbrev pub matches : ℕ → FnMap → Bool
matches scancode row = scancode == row.scancode1 || scancode == row.scancode2

module _ {D : Type 0} where
  abbrev pub set_keycode2 : ℕ → Bool → World D → World D
  set_keycode2 i flag w = record w { keycode2_pressed = update w.keycode2_pressed i flag }

  unfoldable pub press_row : ℕ → FnMap → World D → World D
  press_row i row w =
      if w.ctx.phy_shr
      then set_keycode2 i true (key row.keycode2 true (key key_rightshift false w))
      else key row.keycode1 true w

  unfoldable pub release_row : ℕ → FnMap → World D → World D
  release_row i row w =
      if w.keycode2_pressed i
      then set_keycode2 i false (key row.keycode2 false w)
      else key row.keycode1 false w

  -- The loop over the rows from index `i`: whether a row has the scancode.
  unfoldable pub fn_rows : ℕ → List FnMap → FifoItem → World D → Bool × World D
  unfolding press_row release_row
  fn_rows i [] ev w = (false, w)
  fn_rows i (row ∷ rows) ev w =
      let later = fn_rows (suc i) rows ev w in
      if matches ev.scancode row
      then (true, if ev.state == key_state_pressed then press_row i row w else release_row i row w)
      else later

  unfoldable pub proccess_fn_key : FifoItem → World D → Bool × World D
  unfolding fn_rows
  proccess_fn_key ev w =
      if ev.state == key_state_pressed || ev.state == key_state_released
      then fn_rows 0 fn_keycodes ev w
      else (false, w)

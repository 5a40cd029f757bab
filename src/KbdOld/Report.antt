-- ===== src/KbdOld/Report.antt =====
-- key_report_event of picocalc_kbd.c for the v1.2 firmware.
pub mod Mode
pub mod Status
pub mod Frame
pub mod Others
pub mod Kept
pub mod Pairing
use picocalc_ubuntu_kernel.Prelude.{
  Bool, Option, if◌then◌else◌, ◌||◌, none, not, true, ◌==◌, false, some, ◌&&◌,
}
use picocalc_ubuntu_kernel.Prelude.Int.{ℤ, pos, negsuc}
use picocalc_ubuntu_kernel.Input.{
  Axis, rel_x, rel_y, report_rel, same_code, Keycode, key_y, key_i, key_rightshift, key_insert,
  key_pagedown, key_leftalt, key_pageup, reserved, btn_right, key_enter, key_unknown, btn_left,
}
use picocalc_ubuntu_kernel.Platform.{Platform}
use picocalc_ubuntu_kernel.KbdOld.Codes.{keycodes}
use picocalc_ubuntu_kernel.KbdOld.Context.{
  FifoItem, World, key, emit, on_ctx, stamp, MoveDir, KbdCtx, key_state_pressed, key_state_released,
  key_state_hold,
}
use picocalc_ubuntu_kernel.KbdOld.Fn.{proccess_fn_key}

abbrev pub is_press : FifoItem → Bool
is_press ev = ev.state == key_state_pressed

abbrev pub is_release : FifoItem → Bool
is_release ev = ev.state == key_state_released

abbrev pub is_hold : FifoItem → Bool
is_hold ev = ev.state == key_state_hold

module _ {D : Type 0} where
  -- The two updates of the shift status.
  unfoldable pub track_shift : FifoItem → World D → World D
  track_shift ev w =
      let down = is_press ev || is_hold ev in
      if ev.scancode == 0xa3
      then on_ctx (λ c. record c { phy_shr = down }) w
      else if ev.scancode == 0xa2
      then on_ctx (λ c. record c { phy_shl = down }) w
      else w

  abbrev pub set_dir : (MoveDir → MoveDir) → World D → World D
  set_dir f w = on_ctx (λ c. record c { mouse_move_dir = f c.mouse_move_dir }) w

  -- A page key or a mouse button.
  unfoldable pub page_key : Keycode → FifoItem → World D → World D
  page_key k ev w =
      let w' = if is_press ev then key key_rightshift false w else w in key k (is_press ev) w'

  unfoldable pub button : Keycode → FifoItem → World D → World D
  button k ev w = if is_hold ev then w else key k (is_press ev) w

  -- Scancode 0xD1: Alt + I, Shift + Enter.
  unfoldable pub insert_key : FifoItem → World D → World D
  insert_key ev w =
      let c = w.ctx in
      if is_press ev
      then if not c.phy_shl && not c.phy_shr
        then on_ctx (λ c. record c { virtual_ins = true })
            (key key_insert true (key key_leftalt false w))
        else if not c.phy_shl && c.phy_shr
        then on_ctx (λ c. record c { mouse_mode = not c.mouse_mode }) w
        else if c.phy_shl && not c.phy_shr
        then key key_enter true w
        else w
      else if is_release ev
      then if not c.phy_shl && not c.phy_shr
        then on_ctx (λ c. record c { virtual_ins = false }) (key key_insert false w)
        else if c.phy_shl && not c.phy_shr
        then key key_enter false w
        else w
      else w

module _ {D : Type 0} (p : Platform D) where
  -- An arrow that moves the pointer by `step` at once and sets its bit, and clears it when released;
  -- the time is taken unless the bit was set.
  unfoldable pub move_key :
      Axis → ℤ → (MoveDir → Bool) → (Bool → MoveDir → MoveDir) → FifoItem → World D → World D
  unfolding stamp
  move_key axis step bit set ev w =
      let moved = emit (report_rel axis step) w in
      let timed = if bit w.ctx.mouse_move_dir then moved else stamp p moved in
      if is_press ev
      then set_dir (set true) timed
      else if is_release ev
      then set_dir (set false) w
      else w

  -- The switch of the mouse mode: none where it does not return.
  unfoldable pub mouse_key : FifoItem → World D → Option (World D)
  unfolding page_key button move_key
  mouse_key ev w =
      let s = ev.scancode in
      if s == 0xb7
      then some (move_key rel_x (pos 3) (λ m. m.right) (λ b m. record m { right = b }) ev w)
      else if s == 0xb4
      then some (move_key rel_x (negsuc 2) (λ m. m.left) (λ b m. record m { left = b }) ev w)
      else if s == 0xd7 || s == 0xb6
      then some (
          if w.ctx.phy_shr
          then page_key key_pagedown ev w
          else move_key rel_y (pos 3) (λ m. m.down) (λ b m. record m { down = b }) ev w)
      else if s == 0xd6 || s == 0xb5
      then some (
          if w.ctx.phy_shr
          then page_key key_pageup ev w
          else move_key rel_y (negsuc 2) (λ m. m.up) (λ b m. record m { up = b }) ev w)
      else if s == 93 || s == 125
      then some (button btn_right ev w)
      else if s == 91 || s == 123
      then some (button btn_left ev w)
      else none

  -- Behind proccess_fn_key: the codes of the table. Only the low byte of a code is kept, and every code
  -- fits in it.
  unfoldable pub plain_key : FifoItem → World D → World D
  unfolding stamp keycodes
  plain_key ev w =
      let keycode = keycodes ev.scancode in
      let stamped = stamp p w in
      if same_code keycode key_i && w.ctx.virtual_ins
      then on_ctx (λ c. record c { virtual_ins = false }) (key key_insert false w)
      else if same_code keycode reserved || same_code keycode key_unknown
      then w
      else if is_hold ev
      then stamped
      else key keycode (is_press ev) stamped

  -- Behind the mouse mode's switch.
  unfoldable pub keyboard_key : FifoItem → World D → World D
  unfolding insert_key plain_key proccess_fn_key
  keyboard_key ev w =
      let (handled, w') = proccess_fn_key ev w in
      if ev.scancode == 0xd1
      then insert_key ev w
      else if handled
      then stamp p w'
      else plain_key ev w'

  unfoldable pub key_report_event : FifoItem → World D → World D
  unfolding track_shift mouse_key keyboard_key
  key_report_event ev w =
      let w1 = track_shift ev w in
      let moved : Option (World D) = if w1.ctx.mouse_mode then mouse_key ev w1 else none in
      if is_press ev || is_release ev || is_hold ev
      then elim moved [ some w2 ↦ w2 | none ↦ keyboard_key ev w1 ]
      else w

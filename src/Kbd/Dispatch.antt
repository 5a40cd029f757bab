-- ===== src/Kbd/Dispatch.antt =====
-- key_dispatch of picocalc_kbd.c, the state machine: one definition for each part of its body.
pub mod Quiet
pub mod Invariant
pub mod Modifiers
pub mod Releases
pub mod Preserve
pub mod Frame
pub mod Pairing
pub mod Repeat
pub mod Release
pub mod Device
pub mod Flags
use picocalc_ubuntu_kernel.Prelude.{
  List, [], ◌∷◌, ℕ, Bool, true, false, not, ◌&&◌, ◌||◌, leb, ◌==◌, if◌then◌else◌, none, some,
}
use picocalc_ubuntu_kernel.Prelude.Int.{pos, negsuc}
use picocalc_ubuntu_kernel.Input.{
  Keycode, reserved, key_leftshift, key_rightshift, key_leftalt, key_leftctrl, btn_left, btn_right,
  mouse_dw, report_key, cancel_delayed_work,
}
use picocalc_ubuntu_kernel.Platform.{Platform}
use picocalc_ubuntu_kernel.Kbd.Phys.{
  pk_none, pk_max, pk_power, pk_lshift, pk_rshift, pk_lalt, pk_lctrl, pk_capslock, pk_up, pk_down,
  pk_left, pk_right, pk_lbracket, pk_rbracket,
}
use picocalc_ubuntu_kernel.Kbd.Tables.{
  FnAction, screen_bkl_down, screen_bkl_up, kbd_bkl_cycle, lookup_fn_action, lookup_fn_keycode,
  phys_to_base_keycode,
}
use picocalc_ubuntu_kernel.Kbd.Context.{
  EmitMode, emit_none, emit_normal, emit_shifted, emit_fn, emit_mouse, is_none, is_code, World,
  emit, on_ctx, set_slot, stamp,
}
use picocalc_ubuntu_kernel.Kbd.Backlight.{
  trigger_backlight_flash, screen_backlight_adjust, kbd_backlight_cycle, screen_bl_step,
}
use picocalc_ubuntu_kernel.Kbd.Mouse.{
  Dir, dir_left, dir_right, dir_up, dir_down, no_dirs, mouse_start_move, mouse_stop_move,
}

-- enum pico_key_state, a number of 4 bits.
abbrev pub key_state_idle : ℕ
key_state_idle = 0

abbrev pub key_state_pressed : ℕ
key_state_pressed = 1

abbrev pub key_state_hold : ℕ
key_state_hold = 2

abbrev pub key_state_released : ℕ
key_state_released = 3

abbrev pub is_arrow : ℕ → Bool
is_arrow phys = leb pk_up phys && leb phys pk_right

unfoldable pub is_mouse_key : ℕ → Bool
is_mouse_key phys =
    phys == pk_up
    || phys == pk_down
    || phys == pk_left
    || phys == pk_right
    || phys == pk_lbracket
    || phys == pk_rbracket

-- `switch (phys)` over the arrow keys, reached for these four only.
unfoldable pub arrow_dir : ℕ → Dir
arrow_dir phys =
    if phys == pk_up
    then dir_up
    else if phys == pk_down
    then dir_down
    else if phys == pk_left
    then dir_left
    else dir_right

module _ {D : Type 0} where
  unfoldable pub rshift_supplement_down : World D → World D
  rshift_supplement_down w =
      if w.ctx.phy_shr && not w.ctx.rshift_reported
      then on_ctx (λ c. record c { rshift_reported = true })
          (emit (report_key key_rightshift true) w)
      else w

  unfoldable pub rshift_supplement_up : World D → World D
  rshift_supplement_up w =
      if w.ctx.rshift_reported
      then on_ctx (λ c. record c { rshift_reported = false })
          (emit (report_key key_rightshift false) w)
      else w

  -- `if (press) input_report_key(k, 1); if (release) input_report_key(k, 0);`
  abbrev pub report_edge : Keycode → Bool → Bool → World D → World D
  report_edge k press release w =
      let w' = if press then emit (report_key k true) w else w in
      if release then emit (report_key k false) w' else w'

  unfoldable pub rshift_key : Bool → Bool → World D → World D
  rshift_key press release w =
      let w' = on_ctx (λ c. record c { phy_shr = press }) w in
      if release then rshift_supplement_up w' else w'

  -- The `switch (em)` of the release path.
  unfoldable pub release_slot : EmitMode → Keycode → ℕ → World D → World D
  release_slot emit_none kc phys w = w
  release_slot emit_normal kc phys w = emit (report_key kc false) w
  release_slot emit_shifted kc phys w = emit (report_key kc false) w
  release_slot emit_fn kc phys w = emit (report_key kc false) w
  release_slot emit_mouse kc phys w =
      let w1 =
        if is_mouse_key phys && is_arrow phys then mouse_stop_move (arrow_dir phys) w else w in
      let w2 = if phys == pk_lbracket then emit (report_key btn_left false) w1 else w1 in
      if phys == pk_rbracket then emit (report_key btn_right false) w2 else w2

module _ {D : Type 0} (p : Platform D) where
  unfoldable pub lshift_key : Bool → Bool → World D → World D
  lshift_key press release w =
      stamp p
        (report_edge key_leftshift press release (on_ctx (λ c. record c { phy_shl = press }) w))

  unfoldable pub lalt_key : Bool → Bool → World D → World D
  lalt_key press release w =
      stamp p (report_edge key_leftalt press release (on_ctx (λ c. record c { phy_alt = press }) w))

  unfoldable pub lctrl_key : Bool → Bool → World D → World D
  lctrl_key press release w =
      stamp p
        (report_edge key_leftctrl press release (on_ctx (λ c. record c { phy_ctrl = press }) w))

  unfoldable pub toggle_mouse_mode : World D → World D
  toggle_mouse_mode w =
      let w1 = on_ctx (λ c. record c { mouse_mode = not c.mouse_mode; mouse_dir = no_dirs }) w in
      trigger_backlight_flash p (rshift_supplement_up (emit (cancel_delayed_work mouse_dw) w1))

  unfoldable pub capslock_key : Bool → Bool → World D → World D
  capslock_key press release w =
      let reported = emit (report_key (phys_to_base_keycode pk_capslock) press) w in
      let toggled = on_ctx (λ c. record c { capslock = not c.capslock }) reported in
      let w' = if press || release then (if press then toggled else reported) else w in
      if press && w.ctx.phy_shr then toggle_mouse_mode w else stamp p w'

  unfoldable pub key_release : ℕ → World D → World D
  key_release phys w =
      let slot = w.ctx.key_state phys in
      stamp p (set_slot phys emit_none reserved (release_slot slot.emit_mode slot.keycode phys w))

  unfoldable pub fn_action_run : FnAction → World D → World D
  fn_action_run screen_bkl_down w = screen_backlight_adjust p (negsuc 15) w
  fn_action_run screen_bkl_up w = screen_backlight_adjust p (pos screen_bl_step) w
  fn_action_run kbd_bkl_cycle w = kbd_backlight_cycle p w

  -- A press that reports `kc` and locks it with its mode in the key's slot.
  abbrev pub press_as : EmitMode → Keycode → ℕ → World D → World D
  press_as m kc phys w = stamp p (emit (report_key kc true) (set_slot phys m kc w))

  -- Base keycode, with the R-shift supplement if needed. An unmapped key is dropped.
  unfoldable pub base_press : ℕ → World D → World D
  base_press phys w =
      let kc = phys_to_base_keycode phys in
      if not (is_code kc)
      then w
      else if w.ctx.phy_shr
      then press_as emit_shifted kc phys (rshift_supplement_down w)
      else press_as emit_normal kc phys w

  unfoldable pub fn_press : ℕ → World D → World D
  fn_press phys w =
      let kc = lookup_fn_keycode phys w.ctx.mouse_mode in
      elim (lookup_fn_action phys) [
        | some act ↦ stamp p (set_slot phys emit_fn reserved (fn_action_run act w))
        | none ↦ if is_code kc then press_as emit_fn kc phys w else base_press phys w
      ]

  unfoldable pub plain_press : ℕ → World D → World D
  plain_press phys w = if w.ctx.phy_shr then fn_press phys w else base_press phys w

  unfoldable pub mouse_press : ℕ → World D → World D
  mouse_press phys w =
      if is_arrow phys
      then stamp p (mouse_start_move p (arrow_dir phys) (set_slot phys emit_mouse reserved w))
      else if phys == pk_lbracket
      then press_as emit_mouse btn_left phys w
      else if phys == pk_rbracket
      then press_as emit_mouse btn_right phys w
      else plain_press phys w

  unfoldable pub key_press : ℕ → World D → World D
  key_press phys w =
      if not (is_none (w.ctx.key_state phys).emit_mode)
      then w
      else if w.ctx.mouse_mode && not w.ctx.phy_shr && is_mouse_key phys
      then mouse_press phys w
      else plain_press phys w

  -- The keys below the modifiers and caps lock.
  unfoldable pub key_body : ℕ → Bool → Bool → World D → World D
  key_body phys press release w =
      if release then key_release phys w else if press then key_press phys w else w

  unfoldable pub special_key : ℕ → Bool → Bool → World D → World D
  special_key phys press release w =
      if phys == pk_lshift
      then lshift_key press release w
      else if phys == pk_rshift
      then rshift_key press release w
      else if phys == pk_lalt
      then lalt_key press release w
      else if phys == pk_lctrl
      then lctrl_key press release w
      else if phys == pk_capslock
      then capslock_key press release w
      else key_body phys press release w

  unfoldable pub key_dispatch : ℕ → ℕ → World D → World D
  key_dispatch phys state w =
      if phys == pk_none || leb pk_max phys
      then w
      else if phys == pk_power
      then w
      else if state == key_state_hold
      then w
      else special_key phys (state == key_state_pressed) (state == key_state_released) w

-- A run of events, each a key and its state, in the order of the list: the dispatch loop of
-- input_workqueue_handler over what it has read, and any number of such loops.
unfoldable pub run_events : {D : Type 0} → Platform D → List (ℕ × ℕ) → World D → World D
run_events p [] w = w
run_events p ((phys, state) ∷ es) w = run_events p es (key_dispatch p phys state w)

-- All of the above, for a run on concrete input.
unfoldable pub run_dispatch : Unit {0}
unfolding is_mouse_key arrow_dir rshift_supplement_down rshift_supplement_up rshift_key release_slot
    lshift_key lalt_key lctrl_key toggle_mouse_mode capslock_key key_release fn_action_run
    base_press fn_press plain_press mouse_press key_press key_body special_key key_dispatch
run_dispatch = tt

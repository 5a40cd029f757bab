-- ===== src/Pckb.antt =====
-- src/kernel-6.1/drivers/input/keyboard/picocalc-keyboard.c, the keyboard driver in the kernel tree: it
-- polls the controller's key FIFO, one event for each run of its delayed work.
pub mod Tracking
mod Examples
use picocalc_ubuntu_kernel.Prelude.{
  Bool, List, ℕ, ◌%◌, Option, if◌then◌else◌, ◌/◌, ◌==◌, false, not, ◌||◌, ◌∷◌, [], ◌&&◌, none, some,
}
use picocalc_ubuntu_kernel.Kbd.Tables.{designated}
use picocalc_ubuntu_kernel.Input.{
  cancel_delayed_work, schedule_delayed_work, Effect, Keycode, pckb_work, same_code, key_a,
  reserved, key_b, key_unknown, input_sync, key_c, key_d, report_key, key_e, key_f, key_g, key_h,
  key_i, key_j, key_k, key_l, key_m, key_n, key_o, key_p, key_q, key_r, key_s, key_t, key_u, key_v,
  key_w, key_x, key_y, key_z, key_1, key_2, key_3, key_4, key_5, key_6, key_7, key_8, key_9, key_0,
  key_f1, key_f2, key_f3, key_f4, key_f5, key_f6, key_f7, key_f8, key_f9, key_f10, key_leftalt,
  key_leftshift, key_rightshift, key_leftctrl, key_up, key_down, key_left, key_right, key_pageup,
  key_pagedown, key_esc, key_break, key_tab, key_home, key_delete, key_end, key_capslock,
  key_backspace, key_insert, key_grave, key_slash, key_backslash, key_minus, key_equal,
  key_leftbrace, key_rightbrace, key_semicolon, key_comma, key_dot, key_apostrophe, key_space,
  key_enter,
}
use picocalc_ubuntu_kernel.Platform.{Platform, Ret, value, failure, enomem}

abbrev xlate_rows : List (ℕ × Keycode)
xlate_rows =
    (97, key_a)
    ∷ (98, key_b)
    ∷ (99, key_c)
    ∷ (100, key_d)
    ∷ (101, key_e)
    ∷ (102, key_f)
    ∷ (103, key_g)
    ∷ (104, key_h)
    ∷ (105, key_i)
    ∷ (106, key_j)
    ∷ (107, key_k)
    ∷ (108, key_l)
    ∷ (109, key_m)
    ∷ (110, key_n)
    ∷ (111, key_o)
    ∷ (112, key_p)
    ∷ (113, key_q)
    ∷ (114, key_r)
    ∷ (115, key_s)
    ∷ (116, key_t)
    ∷ (117, key_u)
    ∷ (118, key_v)
    ∷ (119, key_w)
    ∷ (120, key_x)
    ∷ (121, key_y)
    ∷ (122, key_z)
    ∷ (65, key_a)
    ∷ (66, key_b)
    ∷ (67, key_c)
    ∷ (68, key_d)
    ∷ (69, key_e)
    ∷ (70, key_f)
    ∷ (71, key_g)
    ∷ (72, key_h)
    ∷ (73, key_i)
    ∷ (74, key_j)
    ∷ (75, key_k)
    ∷ (76, key_l)
    ∷ (77, key_m)
    ∷ (78, key_n)
    ∷ (79, key_o)
    ∷ (80, key_p)
    ∷ (81, key_q)
    ∷ (82, key_r)
    ∷ (83, key_s)
    ∷ (84, key_t)
    ∷ (85, key_u)
    ∷ (86, key_v)
    ∷ (87, key_w)
    ∷ (88, key_x)
    ∷ (89, key_y)
    ∷ (90, key_z)
    ∷ (49, key_1)
    ∷ (50, key_2)
    ∷ (51, key_3)
    ∷ (52, key_4)
    ∷ (53, key_5)
    ∷ (54, key_6)
    ∷ (55, key_7)
    ∷ (56, key_8)
    ∷ (57, key_9)
    ∷ (48, key_0)
    ∷ (33, key_1)
    ∷ (64, key_2)
    ∷ (35, key_3)
    ∷ (36, key_4)
    ∷ (37, key_5)
    ∷ (94, key_6)
    ∷ (38, key_7)
    ∷ (42, key_8)
    ∷ (40, key_9)
    ∷ (41, key_0)
    ∷ (129, key_f1)
    ∷ (130, key_f2)
    ∷ (131, key_f3)
    ∷ (132, key_f4)
    ∷ (133, key_f5)
    ∷ (134, key_f6)
    ∷ (135, key_f7)
    ∷ (136, key_f8)
    ∷ (137, key_f9)
    ∷ (144, key_f10)
    ∷ (161, key_leftalt)
    ∷ (162, key_leftshift)
    ∷ (163, key_rightshift)
    ∷ (165, key_leftctrl)
    ∷ (181, key_up)
    ∷ (182, key_down)
    ∷ (180, key_left)
    ∷ (183, key_right)
    ∷ (214, key_pageup)
    ∷ (215, key_pagedown)
    ∷ (177, key_esc)
    ∷ (208, key_break)
    ∷ (9, key_tab)
    ∷ (210, key_home)
    ∷ (212, key_delete)
    ∷ (213, key_end)
    ∷ (193, key_capslock)
    ∷ (8, key_backspace)
    ∷ (209, key_insert)
    ∷ (126, key_grave)
    ∷ (96, key_grave)
    ∷ (63, key_slash)
    ∷ (47, key_slash)
    ∷ (92, key_backslash)
    ∷ (124, key_backslash)
    ∷ (45, key_minus)
    ∷ (95, key_minus)
    ∷ (61, key_equal)
    ∷ (43, key_equal)
    ∷ (91, key_leftbrace)
    ∷ (123, key_leftbrace)
    ∷ (93, key_rightbrace)
    ∷ (125, key_rightbrace)
    ∷ (59, key_semicolon)
    ∷ (58, key_semicolon)
    ∷ (44, key_comma)
    ∷ (60, key_comma)
    ∷ (46, key_dot)
    ∷ (62, key_dot)
    ∷ (39, key_apostrophe)
    ∷ (34, key_apostrophe)
    ∷ (32, key_space)
    ∷ (10, key_enter)
    ∷ []

unfoldable pub xlate : ℕ → Keycode
unfolding designated
xlate = designated reserved xlate_rows

abbrev pub pckb_pressed : ℕ
pckb_pressed = 1

abbrev pub pckb_released : ℕ
pckb_released = 3

abbrev pub pckb_reg : ℕ
pckb_reg = 0x09

-- struct picocalc_keyboard, the machine, and the calls made so far, the newest first.
pub record Pckb (D : Type 0) : Type 0 where
  pub page_key : Bool
  pub interval : ℕ
  pub dev : D
  pub out : List Effect

-- `xlate[keycode] == 0 || xlate[keycode] == KEY_UNKNOWN`
unfoldable pub has_no_key : ℕ → Bool
has_no_key keycode = same_code (xlate keycode) reserved || same_code (xlate keycode) key_unknown

abbrev pub is_shift : ℕ → Bool
is_shift keycode = keycode == 0xa2 || keycode == 0xa3

-- The arrows that a held shift turns into the page keys.
unfoldable pub paged : Bool → ℕ → ℕ
paged page_key keycode =
    if page_key
    then if keycode == 0xb5 then 0xd6 else if keycode == 0xb6 then 0xd7 else keycode
    else keycode

module _ {D : Type 0} where
  -- The handler's part for an event that was read.
  unfoldable pub pckb_event : ℕ → ℕ → Pckb D → Pckb D
  pckb_event keystate keycode s =
      let page = if is_shift keycode then keystate == pckb_pressed else s.page_key in
      let key = xlate (paged page keycode) in
      if not (keystate == pckb_pressed) && not (keystate == pckb_released)
      then s
      else if has_no_key keycode
      then s
      else record s {
        page_key = page;
        out = input_sync ∷ report_key key (keystate == pckb_pressed) ∷ s.out;
      }

  abbrev pub reschedule : Pckb D → Pckb D
  reschedule s = record s { out = schedule_delayed_work pckb_work s.interval ∷ s.out }

  module _ (p : Platform D) where
    unfoldable pub pckb_work_handler : Pckb D → Pckb D
    pckb_work_handler s =
        let (r, d) = p.read_word s.dev pckb_reg in
        let s' : Pckb D = record s { dev = d } in
        elim r [
          | failure e ↦ reschedule s'
          | value v ↦ reschedule (pckb_event (v % 256) (v / 256 % 256) s')
        ]

  -- pckb_probe with the answers of the two allocations and of the registration: the number of the
  -- error that is returned, and the driver that runs.
  unfoldable pub pckb_probe : Bool → Bool → ℕ → D → ℕ × Option (Pckb D)
  pckb_probe allocated input_allocated registered dev =
      let fresh : Pckb D = record { page_key = false; interval = 20; dev = dev; out = [] } in
      if not allocated
      then (enomem, none)
      else if not input_allocated
      then (enomem, none)
      else if not (registered == 0)
      then (registered, none)
      else (0, some (reschedule fresh))

  unfoldable pub pckb_remove : Pckb D → Pckb D
  pckb_remove s = record s { out = cancel_delayed_work pckb_work ∷ s.out }

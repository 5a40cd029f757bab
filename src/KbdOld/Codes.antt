-- ===== src/KbdOld/Codes.antt =====
-- modules-drivers/picocalc_keyboard_old(for v1.2 BIOS)/picocalc_kbd_code.h: the codes of the scancodes.
use picocalc_ubuntu_kernel.Prelude.{List, ℕ, ◌∷◌, []}
use picocalc_ubuntu_kernel.Input.{
  Keycode, reserved, key_leftalt, key_leftshift, key_rightshift, key_leftctrl, key_a, key_b, key_c,
  key_d, key_e, key_f, key_g, key_h, key_i, key_j, key_k, key_l, key_m, key_n, key_o, key_p, key_q,
  key_r, key_s, key_t, key_u, key_v, key_w, key_x, key_y, key_z, key_space, key_backspace,
  key_enter, key_0, key_1, key_2, key_3, key_4, key_5, key_6, key_7, key_8, key_9, key_f1, key_f2,
  key_f3, key_f4, key_f5, key_f6, key_f7, key_f8, key_f9, key_f10, key_delete, key_end,
  key_capslock, key_tab, key_home, key_esc, key_pause, key_insert, key_equal, key_minus,
  key_backslash, key_dot, key_semicolon, key_comma, key_grave, key_apostrophe, key_slash,
  key_rightbrace, key_leftbrace, key_right, key_up, key_down, key_left, key_pageup, key_pagedown,
}
use picocalc_ubuntu_kernel.Kbd.Tables.{designated}

abbrev pub keycode_rows : List (ℕ × Keycode)
keycode_rows =
    (0xa1, key_leftalt)
    ∷ (0xa2, key_leftshift)
    ∷ (0xa3, key_rightshift)
    ∷ (0xa5, key_leftctrl)
    ∷ (97, key_a)
    ∷ (98, key_b)
    ∷ (99, key_c)
    ∷ (100, key_d)
    ∷ (101, key_e)
    ∷ (102, key_f)
    ∷ (103, key_g)
    ∷ (104, key_h)
    ∷ (105, key_i)
    ∷ (106, key_j)
    ∷ (107, key_k)
    ∷ (108, key_l)
    ∷ (109, key_m)
    ∷ (110, key_n)
    ∷ (111, key_o)
    ∷ (112, key_p)
    ∷ (113, key_q)
    ∷ (114, key_r)
    ∷ (115, key_s)
    ∷ (116, key_t)
    ∷ (117, key_u)
    ∷ (118, key_v)
    ∷ (119, key_w)
    ∷ (120, key_x)
    ∷ (121, key_y)
    ∷ (122, key_z)
    ∷ (65, key_a)
    ∷ (66, key_b)
    ∷ (67, key_c)
    ∷ (68, key_d)
    ∷ (69, key_e)
    ∷ (70, key_f)
    ∷ (71, key_g)
    ∷ (72, key_h)
    ∷ (73, key_i)
    ∷ (74, key_j)
    ∷ (75, key_k)
    ∷ (76, key_l)
    ∷ (77, key_m)
    ∷ (78, key_n)
    ∷ (79, key_o)
    ∷ (80, key_p)
    ∷ (81, key_q)
    ∷ (82, key_r)
    ∷ (83, key_s)
    ∷ (84, key_t)
    ∷ (85, key_u)
    ∷ (86, key_v)
    ∷ (87, key_w)
    ∷ (88, key_x)
    ∷ (89, key_y)
    ∷ (90, key_z)
    ∷ (32, key_space)
    ∷ (8, key_backspace)
    ∷ (10, key_enter)
    ∷ (48, key_0)
    ∷ (49, key_1)
    ∷ (50, key_2)
    ∷ (51, key_3)
    ∷ (52, key_4)
    ∷ (53, key_5)
    ∷ (54, key_6)
    ∷ (55, key_7)
    ∷ (56, key_8)
    ∷ (57, key_9)
    ∷ (41, key_0)
    ∷ (40, key_9)
    ∷ (42, key_8)
    ∷ (38, key_7)
    ∷ (94, key_6)
    ∷ (37, key_5)
    ∷ (36, key_4)
    ∷ (35, key_3)
    ∷ (64, key_2)
    ∷ (33, key_1)
    ∷ (0x81, key_f1)
    ∷ (0x82, key_f2)
    ∷ (0x83, key_f3)
    ∷ (0x84, key_f4)
    ∷ (0x85, key_f5)
    ∷ (0x86, key_f6)
    ∷ (0x87, key_f7)
    ∷ (0x88, key_f8)
    ∷ (0x89, key_f9)
    ∷ (0x90, key_f10)
    ∷ (0x08, key_backspace)
    ∷ (0xd4, key_delete)
    ∷ (0xd5, key_end)
    ∷ (0xc1, key_capslock)
    ∷ (0x09, key_tab)
    ∷ (0xd2, key_home)
    ∷ (0xb1, key_esc)
    ∷ (0xd0, key_pause)
    ∷ (0xd1, key_insert)
    ∷ (61, key_equal)
    ∷ (43, key_equal)
    ∷ (45, key_minus)
    ∷ (95, key_minus)
    ∷ (92, key_backslash)
    ∷ (124, key_backslash)
    ∷ (46, key_dot)
    ∷ (62, key_dot)
    ∷ (59, key_semicolon)
    ∷ (58, key_semicolon)
    ∷ (44, key_comma)
    ∷ (60, key_comma)
    ∷ (96, key_grave)
    ∷ (126, key_grave)
    ∷ (34, key_apostrophe)
    ∷ (39, key_apostrophe)
    ∷ (63, key_slash)
    ∷ (47, key_slash)
    ∷ (93, key_rightbrace)
    ∷ (125, key_rightbrace)
    ∷ (91, key_leftbrace)
    ∷ (123, key_leftbrace)
    ∷ (0xb7, key_right)
    ∷ (0xb5, key_up)
    ∷ (0xb6, key_down)
    ∷ (0xb4, key_left)
    ∷ (0xd6, key_pageup)
    ∷ (0xd7, key_pagedown)
    ∷ []

-- An index without a row holds 0, KEY_RESERVED.
unfoldable pub keycodes : ℕ → Keycode
unfolding designated
keycodes scancode = designated reserved keycode_rows scancode

-- ===== src/Kbd/Keymap.antt =====
-- picocalc_kbd_code.h: the key codes that the driver declares to the input core.
use picocalc_ubuntu_kernel.Prelude.{
  true, false, ℕ, ◌≡◌, refl, Bool, true, not, ◌&&◌, ◌||◌, List, [], ◌∷◌, all_below, ◌<◌,
  all_below_sound,
}
use picocalc_ubuntu_kernel.Input.{
  Keycode, Keycode-discrete, same_code, btn_left, btn_right, key_0, key_1, key_2, key_3, key_4,
  key_5, key_6, key_7, key_8, key_9, key_a, key_apostrophe, key_b, key_backslash, key_backspace,
  key_c, key_capslock, key_comma, key_d, key_delete, key_dot, key_down, key_e, key_end, key_enter,
  key_equal, key_esc, key_f, key_f1, key_f10, key_f11, key_f2, key_f3, key_f4, key_f5, key_f6,
  key_f7, key_f8, key_f9, key_g, key_grave, key_h, key_home, key_i, key_insert, key_j, key_k, key_l,
  key_left, key_leftalt, key_leftbrace, key_leftctrl, key_leftshift, key_m, key_minus, key_n, key_o,
  key_p, key_pagedown, key_pageup, key_pause, key_power, key_q, key_r, key_right, key_rightbrace,
  key_rightshift, key_s, key_semicolon, key_slash, key_space, key_t, key_tab, key_u, key_up, key_v,
  key_w, key_x, key_y, key_z, reserved,
}
use picocalc_ubuntu_kernel.Kbd.Phys.{pk_max}
use picocalc_ubuntu_kernel.Kbd.Tables.{designated, phys_to_base_keycode, lookup_fn_keycode}

abbrev keymap_rows : List (ℕ × Keycode)
keymap_rows =
    (0xa1, key_leftalt)
    ∷ (0xa2, key_leftshift)
    ∷ (0xa3, key_rightshift)
    ∷ (0xa5, key_leftctrl)
    ∷ (97, key_a)
    ∷ (98, key_b)
    ∷ (99, key_c)
    ∷ (100, key_d)
    ∷ (101, key_e)
    ∷ (102, key_f)
    ∷ (103, key_g)
    ∷ (104, key_h)
    ∷ (105, key_i)
    ∷ (106, key_j)
    ∷ (107, key_k)
    ∷ (108, key_l)
    ∷ (109, key_m)
    ∷ (110, key_n)
    ∷ (111, key_o)
    ∷ (112, key_p)
    ∷ (113, key_q)
    ∷ (114, key_r)
    ∷ (115, key_s)
    ∷ (116, key_t)
    ∷ (117, key_u)
    ∷ (118, key_v)
    ∷ (119, key_w)
    ∷ (120, key_x)
    ∷ (121, key_y)
    ∷ (122, key_z)
    ∷ (65, key_a)
    ∷ (66, key_b)
    ∷ (67, key_c)
    ∷ (68, key_d)
    ∷ (69, key_e)
    ∷ (70, key_f)
    ∷ (71, key_g)
    ∷ (72, key_h)
    ∷ (73, key_i)
    ∷ (74, key_j)
    ∷ (75, key_k)
    ∷ (76, key_l)
    ∷ (77, key_m)
    ∷ (78, key_n)
    ∷ (79, key_o)
    ∷ (80, key_p)
    ∷ (81, key_q)
    ∷ (82, key_r)
    ∷ (83, key_s)
    ∷ (84, key_t)
    ∷ (85, key_u)
    ∷ (86, key_v)
    ∷ (87, key_w)
    ∷ (88, key_x)
    ∷ (89, key_y)
    ∷ (90, key_z)
    ∷ (32, key_space)
    ∷ (8, key_backspace)
    ∷ (10, key_enter)
    ∷ (48, key_0)
    ∷ (49, key_1)
    ∷ (50, key_2)
    ∷ (51, key_3)
    ∷ (52, key_4)
    ∷ (53, key_5)
    ∷ (54, key_6)
    ∷ (55, key_7)
    ∷ (56, key_8)
    ∷ (57, key_9)
    ∷ (41, key_0)
    ∷ (40, key_9)
    ∷ (42, key_8)
    ∷ (38, key_7)
    ∷ (94, key_6)
    ∷ (37, key_5)
    ∷ (36, key_4)
    ∷ (35, key_3)
    ∷ (64, key_2)
    ∷ (33, key_1)
    ∷ (0x81, key_f1)
    ∷ (0x82, key_f2)
    ∷ (0x83, key_f3)
    ∷ (0x84, key_f4)
    ∷ (0x85, key_f5)
    ∷ (0x86, key_f6)
    ∷ (0x87, key_f7)
    ∷ (0x88, key_f8)
    ∷ (0x89, key_f9)
    ∷ (0x90, key_f10)
    ∷ (0x08, key_backspace)
    ∷ (0xd4, key_delete)
    ∷ (0xd5, key_end)
    ∷ (0xc1, key_capslock)
    ∷ (0x09, key_tab)
    ∷ (0xd2, key_home)
    ∷ (0xb1, key_esc)
    ∷ (0xd0, key_pause)
    ∷ (0xd1, key_insert)
    ∷ (61, key_equal)
    ∷ (43, key_equal)
    ∷ (45, key_minus)
    ∷ (95, key_minus)
    ∷ (92, key_backslash)
    ∷ (124, key_backslash)
    ∷ (46, key_dot)
    ∷ (62, key_dot)
    ∷ (59, key_semicolon)
    ∷ (58, key_semicolon)
    ∷ (44, key_comma)
    ∷ (60, key_comma)
    ∷ (96, key_grave)
    ∷ (126, key_grave)
    ∷ (34, key_apostrophe)
    ∷ (39, key_apostrophe)
    ∷ (63, key_slash)
    ∷ (47, key_slash)
    ∷ (93, key_rightbrace)
    ∷ (125, key_rightbrace)
    ∷ (91, key_leftbrace)
    ∷ (123, key_leftbrace)
    ∷ (0xb7, key_right)
    ∷ (0xb5, key_up)
    ∷ (0xb6, key_down)
    ∷ (0xb4, key_left)
    ∷ (0xd6, key_pageup)
    ∷ (0xd7, key_pagedown)
    ∷ (0x91, key_power)
    ∷ []

unfoldable pub keycodes : ℕ → Keycode
unfolding designated
keycodes = designated reserved keymap_rows

-- The bits that `input_probe` sets: all of `keycodes` but KEY_RESERVED, and four more.
unfoldable pub is_declared : Keycode → Bool
unfolding keycodes all_below
is_declared k =
    not (same_code k reserved)
    && (not (all_below 256 (λ i. not (same_code (keycodes i) k)))
        || same_code k key_f11
        || same_code k key_power
        || same_code k btn_left
        || same_code k btn_right)

-- What the input core passes on: a declared code, or the release of KEY_RESERVED that it drops.
abbrev pub covered : Keycode → Bool
covered k = is_declared k || same_code k reserved

base_declared : all_below pk_max (λ q. covered (phys_to_base_keycode q)) ≡ true
unfolding is_declared phys_to_base_keycode Keycode-discrete
base_declared = refl

fn_declared : (b : Bool) → all_below pk_max (λ q. covered (lookup_fn_keycode q b)) ≡ true
unfolding is_declared lookup_fn_keycode Keycode-discrete
fn_declared true = refl
fn_declared false = refl

-- Every code that the base table or the Fn tables give for a key, in either mode, is one of those that
-- the probe declares to the input core, or 0 (KEY_RESERVED); so are both mouse buttons.
pub table_codes_declared :
    (q : ℕ) (mouse_mode : Bool)
    → q < pk_max
    → (covered (phys_to_base_keycode q) ≡ true)
      × (covered (lookup_fn_keycode q mouse_mode) ≡ true)
      × (is_declared btn_left ≡ true)
      × (is_declared btn_right ≡ true)
unfolding is_declared Keycode-discrete
table_codes_declared q b h = (
  all_below_sound pk_max (λ r. covered (phys_to_base_keycode r)) q base_declared h,
  all_below_sound pk_max (λ r. covered (lookup_fn_keycode r b)) q (fn_declared b) h,
  refl,
  refl,
)

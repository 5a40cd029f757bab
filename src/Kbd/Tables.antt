-- ===== src/Kbd/Tables.antt =====
-- The tables of picocalc_kbd.c (layer 1 and the Fn layer) and their lookups.
pub mod Facts
use picocalc_ubuntu_kernel.Prelude.{
  ℕ, Bool, true, false, Option, none, some, List, [], ◌∷◌, ◌==◌, if◌then◌else◌,
}
use picocalc_ubuntu_kernel.Input.{
  Keycode, key_0, key_1, key_2, key_3, key_4, key_5, key_6, key_7, key_8, key_9, key_a,
  key_apostrophe, key_b, key_backslash, key_backspace, key_c, key_capslock, key_comma, key_d,
  key_delete, key_dot, key_down, key_e, key_end, key_enter, key_equal, key_esc, key_f, key_f1,
  key_f10, key_f11, key_f2, key_f3, key_f4, key_f5, key_f6, key_f7, key_f8, key_f9, key_g,
  key_grave, key_h, key_home, key_i, key_insert, key_j, key_k, key_l, key_left, key_leftbrace,
  key_m, key_minus, key_n, key_o, key_p, key_pagedown, key_pageup, key_pause, key_q, key_r,
  key_right, key_rightbrace, key_s, key_semicolon, key_slash, key_space, key_t, key_tab, key_u,
  key_up, key_v, key_w, key_x, key_y, key_z, reserved,
}
use picocalc_ubuntu_kernel.Kbd.Phys.{
  pk_none, pk_0, pk_1, pk_2, pk_3, pk_4, pk_5, pk_6, pk_7, pk_8, pk_9, pk_a, pk_apostrophe, pk_b,
  pk_backslash, pk_backspace, pk_c, pk_capslock, pk_comma, pk_d, pk_delete, pk_dot, pk_down, pk_e,
  pk_end, pk_enter, pk_equal, pk_esc, pk_f, pk_f1, pk_f10, pk_f2, pk_f3, pk_f4, pk_f5, pk_f6, pk_f7,
  pk_f8, pk_f9, pk_g, pk_grave, pk_h, pk_home, pk_i, pk_insert, pk_j, pk_k, pk_l, pk_lalt,
  pk_lbracket, pk_lctrl, pk_left, pk_lshift, pk_m, pk_minus, pk_n, pk_o, pk_p, pk_pagedown,
  pk_pageup, pk_pause, pk_power, pk_q, pk_r, pk_rbracket, pk_right, pk_rshift, pk_s, pk_semicolon,
  pk_slash, pk_space, pk_t, pk_tab, pk_u, pk_up, pk_v, pk_w, pk_x, pk_y, pk_z,
}

-- A C array with designated initialisers: a later one wins, and an index with none holds `d`.
unfoldable pub designated {ℓ} : {A : Type ℓ} → A → List (ℕ × A) → ℕ → A
designated d [] i = d
designated d ((j, v) ∷ t) i = designated (if i == j then v else d) t i

abbrev scancode_rows : List (ℕ × ℕ)
scancode_rows =
    (0x08, pk_backspace)
    ∷ (0x09, pk_tab)
    ∷ (0x0a, pk_enter)
    ∷ (0x20, pk_space)
    ∷ (48, pk_0)
    ∷ (49, pk_1)
    ∷ (50, pk_2)
    ∷ (51, pk_3)
    ∷ (52, pk_4)
    ∷ (53, pk_5)
    ∷ (54, pk_6)
    ∷ (55, pk_7)
    ∷ (56, pk_8)
    ∷ (57, pk_9)
    ∷ (65, pk_a)
    ∷ (66, pk_b)
    ∷ (67, pk_c)
    ∷ (68, pk_d)
    ∷ (69, pk_e)
    ∷ (70, pk_f)
    ∷ (71, pk_g)
    ∷ (72, pk_h)
    ∷ (73, pk_i)
    ∷ (74, pk_j)
    ∷ (75, pk_k)
    ∷ (76, pk_l)
    ∷ (77, pk_m)
    ∷ (78, pk_n)
    ∷ (79, pk_o)
    ∷ (80, pk_p)
    ∷ (81, pk_q)
    ∷ (82, pk_r)
    ∷ (83, pk_s)
    ∷ (84, pk_t)
    ∷ (85, pk_u)
    ∷ (86, pk_v)
    ∷ (87, pk_w)
    ∷ (88, pk_x)
    ∷ (89, pk_y)
    ∷ (90, pk_z)
    ∷ (61, pk_equal)
    ∷ (45, pk_minus)
    ∷ (91, pk_lbracket)
    ∷ (93, pk_rbracket)
    ∷ (59, pk_semicolon)
    ∷ (39, pk_apostrophe)
    ∷ (44, pk_comma)
    ∷ (46, pk_dot)
    ∷ (47, pk_slash)
    ∷ (96, pk_grave)
    ∷ (92, pk_backslash)
    ∷ (0x81, pk_f1)
    ∷ (0x82, pk_f2)
    ∷ (0x83, pk_f3)
    ∷ (0x84, pk_f4)
    ∷ (0x85, pk_f5)
    ∷ (0x86, pk_f6)
    ∷ (0x87, pk_f7)
    ∷ (0x88, pk_f8)
    ∷ (0x89, pk_f9)
    ∷ (0x90, pk_f10)
    ∷ (0xb1, pk_esc)
    ∷ (0xc1, pk_capslock)
    ∷ (0xb5, pk_up)
    ∷ (0xb6, pk_down)
    ∷ (0xb4, pk_left)
    ∷ (0xb7, pk_right)
    ∷ (0xd1, pk_insert)
    ∷ (0xd2, pk_home)
    ∷ (0xd4, pk_delete)
    ∷ (0xd5, pk_end)
    ∷ (0xd0, pk_pause)
    ∷ (0xa1, pk_lalt)
    ∷ (0xa2, pk_lshift)
    ∷ (0xa3, pk_rshift)
    ∷ (0xa5, pk_lctrl)
    ∷ (0x91, pk_power)
    ∷ []

unfoldable pub scancode_to_phys : ℕ → ℕ
unfolding designated
scancode_to_phys = designated pk_none scancode_rows

abbrev keycode_rows : List (ℕ × Keycode)
keycode_rows =
    (pk_a, key_a)
    ∷ (pk_b, key_b)
    ∷ (pk_c, key_c)
    ∷ (pk_d, key_d)
    ∷ (pk_e, key_e)
    ∷ (pk_f, key_f)
    ∷ (pk_g, key_g)
    ∷ (pk_h, key_h)
    ∷ (pk_i, key_i)
    ∷ (pk_j, key_j)
    ∷ (pk_k, key_k)
    ∷ (pk_l, key_l)
    ∷ (pk_m, key_m)
    ∷ (pk_n, key_n)
    ∷ (pk_o, key_o)
    ∷ (pk_p, key_p)
    ∷ (pk_q, key_q)
    ∷ (pk_r, key_r)
    ∷ (pk_s, key_s)
    ∷ (pk_t, key_t)
    ∷ (pk_u, key_u)
    ∷ (pk_v, key_v)
    ∷ (pk_w, key_w)
    ∷ (pk_x, key_x)
    ∷ (pk_y, key_y)
    ∷ (pk_z, key_z)
    ∷ (pk_0, key_0)
    ∷ (pk_1, key_1)
    ∷ (pk_2, key_2)
    ∷ (pk_3, key_3)
    ∷ (pk_4, key_4)
    ∷ (pk_5, key_5)
    ∷ (pk_6, key_6)
    ∷ (pk_7, key_7)
    ∷ (pk_8, key_8)
    ∷ (pk_9, key_9)
    ∷ (pk_space, key_space)
    ∷ (pk_enter, key_enter)
    ∷ (pk_tab, key_tab)
    ∷ (pk_esc, key_esc)
    ∷ (pk_backspace, key_backspace)
    ∷ (pk_dot, key_dot)
    ∷ (pk_comma, key_comma)
    ∷ (pk_semicolon, key_semicolon)
    ∷ (pk_apostrophe, key_apostrophe)
    ∷ (pk_minus, key_minus)
    ∷ (pk_equal, key_equal)
    ∷ (pk_slash, key_slash)
    ∷ (pk_backslash, key_backslash)
    ∷ (pk_lbracket, key_leftbrace)
    ∷ (pk_rbracket, key_rightbrace)
    ∷ (pk_grave, key_grave)
    ∷ (pk_f1, key_f1)
    ∷ (pk_f2, key_f2)
    ∷ (pk_f3, key_f3)
    ∷ (pk_f4, key_f4)
    ∷ (pk_f5, key_f5)
    ∷ (pk_f6, key_f6)
    ∷ (pk_f7, key_f7)
    ∷ (pk_f8, key_f8)
    ∷ (pk_f9, key_f9)
    ∷ (pk_f10, key_f10)
    ∷ (pk_up, key_up)
    ∷ (pk_down, key_down)
    ∷ (pk_left, key_left)
    ∷ (pk_right, key_right)
    ∷ (pk_home, key_home)
    ∷ (pk_end, key_end)
    ∷ (pk_insert, key_insert)
    ∷ (pk_delete, key_delete)
    ∷ (pk_pageup, key_pageup)
    ∷ (pk_pagedown, key_pagedown)
    ∷ (pk_pause, key_pause)
    ∷ (pk_capslock, key_capslock)
    ∷ []

unfoldable pub phys_to_base_keycode : ℕ → Keycode
unfolding designated
phys_to_base_keycode = designated reserved keycode_rows

-- `for (i = 0; i < SIZE; i++) if (table[i].phys == phys) return table[i].value;`
unfoldable pub first_match {ℓ} : {A : Type ℓ} → List (ℕ × A) → ℕ → Option A
first_match [] phys = none
first_match ((p, v) ∷ t) phys = let rest = first_match t phys in if p == phys then some v else rest

unfoldable pub fn_key_table : List (ℕ × Keycode)
fn_key_table =
    (pk_f1, key_f6)
    ∷ (pk_f2, key_f7)
    ∷ (pk_f3, key_f8)
    ∷ (pk_f4, key_f9)
    ∷ (pk_f5, key_f10)
    ∷ (pk_esc, key_pause)
    ∷ (pk_tab, key_home)
    ∷ (pk_delete, key_end)
    ∷ (pk_backspace, key_f11)
    ∷ (pk_up, key_pageup)
    ∷ (pk_down, key_pagedown)
    ∷ (pk_left, key_home)
    ∷ (pk_right, key_end)
    ∷ (pk_i, key_insert)
    ∷ []

unfoldable pub mouse_fn_key_table : List (ℕ × Keycode)
mouse_fn_key_table =
    (pk_up, key_up)
    ∷ (pk_down, key_down)
    ∷ (pk_left, key_left)
    ∷ (pk_right, key_right)
    ∷ (pk_lbracket, key_leftbrace)
    ∷ (pk_rbracket, key_rightbrace)
    ∷ (pk_grave, key_pageup)
    ∷ (pk_slash, key_pagedown)
    ∷ []

pub data FnAction : Type 0 where
  screen_bkl_down screen_bkl_up kbd_bkl_cycle : FnAction

unfoldable pub fn_action_table : List (ℕ × FnAction)
fn_action_table =
    (pk_comma, screen_bkl_down) ∷ (pk_dot, screen_bkl_up) ∷ (pk_space, kbd_bkl_cycle) ∷ []

abbrev code_or_reserved : Option Keycode → Keycode
code_or_reserved none = reserved
code_or_reserved (some k) = k

-- The mouse table first, in mouse mode; then the common one; 0 if neither has the key.
unfoldable pub lookup_fn_keycode : ℕ → Bool → Keycode
unfolding first_match fn_key_table mouse_fn_key_table
lookup_fn_keycode phys mouse_mode =
    let common = code_or_reserved (first_match fn_key_table phys) in
    if mouse_mode
    then elim (first_match mouse_fn_key_table phys) [ none ↦ common | some k ↦ k ]
    else common

-- The return value 0 with `*out` set is `some`, the return value -1 is `none`.
unfoldable pub lookup_fn_action : ℕ → Option FnAction
unfolding first_match fn_action_table
lookup_fn_action phys = first_match fn_action_table phys

-- ===== src/Input.antt =====
-- What the drivers ask of the kernel's input core. The input codes of <linux/input-event-codes.h> are
-- named, not numbered: the drivers pass them on and compare them, and never compute with their
-- numbers. `reserved` is KEY_RESERVED, the number 0, which C's `if (kc)` tests for.
use picocalc_ubuntu_kernel.Prelude.{ℕ, Bool, true, false, ite, List, [], ◌∷◌}
use picocalc_ubuntu_kernel.Prelude.Int.{ℤ}

pub data Keycode : Type 0 where
  reserved key_a key_b key_c key_d key_e key_f key_g key_h key_i key_j key_k key_l key_m key_n key_o
        key_p key_q key_r key_s key_t key_u key_v key_w key_x key_y key_z key_0 key_1 key_2 key_3
        key_4 key_5 key_6 key_7 key_8 key_9 key_space key_enter key_tab key_esc key_backspace
        key_dot key_comma key_semicolon key_apostrophe key_minus key_equal key_slash key_backslash
        key_leftbrace key_rightbrace key_grave key_f1 key_f2 key_f3 key_f4 key_f5 key_f6 key_f7
        key_f8 key_f9 key_f10 key_f11 key_up key_down key_left key_right key_home key_end key_insert
        key_delete key_pageup key_pagedown key_pause key_break key_capslock key_leftshift
        key_rightshift key_leftalt key_leftctrl key_power key_unknown btn_left btn_right :
      Keycode

unfoldable pub Keycode-discrete : Discrete Keycode
Keycode-discrete = hlevel

abbrev pub same_code : Keycode → Keycode → Bool
same_code a b = ite (Keycode-discrete a b) true false

pub data Axis : Type 0 where
  rel_x rel_y : Axis

-- The delayed works that the drivers schedule.
pub data Work : Type 0 where
  mouse_dw bl_flash_work pckb_work : Work

-- The calls of the kernel that have an effect outside the driver, with their arguments.
pub data Effect : Type 0 where
  report_key : Keycode → Bool → Effect
  report_rel : Axis → ℤ → Effect
  input_sync : Effect
  schedule_delayed_work : Work → ℕ → Effect
  cancel_delayed_work : Work → Effect
  smbus_write : ℕ → ℕ → Effect

-- Whether the input core holds a key down after the calls of a log, the newest call first.
unfoldable pub is_down : Keycode → List Effect → Bool
is_down k [] = false
is_down k (report_key j v ∷ es) = let rest = is_down k es in ite (Keycode-discrete j k) v rest
is_down k (report_rel a d ∷ es) = is_down k es
is_down k (input_sync ∷ es) = is_down k es
is_down k (schedule_delayed_work a d ∷ es) = is_down k es
is_down k (cancel_delayed_work a ∷ es) = is_down k es
is_down k (smbus_write r v ∷ es) = is_down k es

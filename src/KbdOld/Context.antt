-- ===== src/KbdOld/Context.antt =====
-- struct kbd_ctx and the other state of picocalc_kbd.c for the v1.2 firmware, and its bus access.
use Prim.Native.Nat.{bit_or}
use picocalc_ubuntu_kernel.Prelude.{ℕ, ◌/◌, ◌%◌, ◌^◌, Bool, List, ◌∷◌}
use picocalc_ubuntu_kernel.Input.{Keycode, Effect, smbus_write, report_key}
use picocalc_ubuntu_kernel.Platform.{Platform, Ret, map_ret}

pub record FifoItem : Type 0 where
  pub state : ℕ  -- 4 bits
  pub scancode : ℕ  -- uint8_t

-- enum pico_key_state, as far as it is used.
abbrev pub key_state_pressed : ℕ
key_state_pressed = 1

abbrev pub key_state_hold : ℕ
key_state_hold = 2

abbrev pub key_state_released : ℕ
key_state_released = 3

-- The bits of `mouse_move_dir`.
pub record MoveDir : Type 0 where
  pub left : Bool
  pub right : Bool
  pub up : Bool
  pub down : Bool

-- `mouse_tick` and `mouse_report_div` are never used, and `version_number` neither.
pub record KbdCtx : Type 0 where
  pub key_fifo_count : ℕ
  -- The array of KBD_FIFO_SIZE = 31 entries and, from index 31 on, the memory behind it.
  pub key_fifo_data : ℕ → FifoItem
  pub last_keypress_at : ℕ  -- uint64_t
  pub mouse_mode : Bool
  pub mouse_move_dir : MoveDir
  pub phy_shr : Bool
  pub phy_shl : Bool
  pub virtual_ins : Bool

-- The driver's context, the flags of the rows of fn_keycodes by their index, mouse_move_step, the
-- machine, and the calls made so far, the newest first.
pub record World (D : Type 0) : Type 0 where
  pub ctx : KbdCtx
  pub keycode2_pressed : ℕ → Bool
  pub mouse_move_step : ℕ  -- int8_t, never negative
  pub dev : D
  pub out : List Effect

module _ {D : Type 0} where
  abbrev pub emit : Effect → World D → World D
  emit e w = record w { out = e ∷ w.out }

  abbrev pub on_ctx : (KbdCtx → KbdCtx) → World D → World D
  on_ctx f w = record w { ctx = f w.ctx }

  -- input_report_key
  abbrev pub key : Keycode → Bool → World D → World D
  key k down w = emit (report_key k down) w

abbrev pub picocalc_write_mask : ℕ
picocalc_write_mask = 2 ^ 7

module _ {D : Type 0} (p : Platform D) where
  -- The attempt is logged with the register and the value that go to the bus.
  unfoldable pub kbd_write_i2c_u8 : ℕ → ℕ → World D → Ret ℕ × World D
  kbd_write_i2c_u8 reg_addr src w =
      let reg' = bit_or reg_addr picocalc_write_mask in
      let (r, d) = p.write_byte w.dev reg' src in
      (r, record w { dev = d; out = smbus_write reg' src ∷ w.out })

  unfoldable pub kbd_read_i2c_2u8 : ℕ → World D → Ret (ℕ × ℕ) × World D
  kbd_read_i2c_2u8 reg_addr w =
      let (r, d) = p.read_word w.dev reg_addr in
      (map_ret (λ v. (v % 256, v / 256 % 256)) r, record w { dev = d })

  -- `ctx->last_keypress_at = ktime_get_boottime_ns();`
  unfoldable pub stamp : World D → World D
  stamp w =
      let (t, d) = p.ktime w.dev in
      record w { ctx = record (w.ctx) { last_keypress_at = t }; dev = d }

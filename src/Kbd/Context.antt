-- ===== src/Kbd/Context.antt =====
-- struct kbd_ctx of picocalc_kbd.c, the I2C helpers and the reports to the input core.
use Prim.Native.Nat.{bit_or}
use picocalc_ubuntu_kernel.Prelude.{ℕ, ◌/◌, ◌%◌, ◌^◌, Bool, true, false, List, ◌∷◌, not, update}
use picocalc_ubuntu_kernel.Prelude.Int.{ℤ}
use picocalc_ubuntu_kernel.Input.{Keycode, reserved, same_code, Effect, smbus_write}
use picocalc_ubuntu_kernel.Platform.{Platform, Ret, map_ret}

-- enum emit_mode, fixed at the key's press and read at its release.
pub data EmitMode : Type 0 where
  emit_none emit_normal emit_shifted emit_fn emit_mouse : EmitMode

abbrev pub is_none : EmitMode → Bool
is_none emit_none = true
is_none _ = false

pub record KeySlot : Type 0 where
  pub emit_mode : EmitMode
  pub keycode : Keycode  -- 0 is `reserved`

-- The bits of `mouse_dir`: MOUSE_DIR_LEFT, MOUSE_DIR_RIGHT, MOUSE_DIR_UP, MOUSE_DIR_DOWN.
pub record Dirs : Type 0 where
  pub left : Bool
  pub right : Bool
  pub up : Bool
  pub down : Bool

pub record FifoItem : Type 0 where
  pub state : ℕ  -- 4 bits
  pub scancode : ℕ  -- uint8_t

pub record KbdCtx : Type 0 where
  pub key_fifo_count : ℕ
  -- The array of KBD_FIFO_SIZE = 31 entries and, from index 31 on, the memory behind it.
  pub key_fifo_data : ℕ → FifoItem
  pub phy_shl : Bool
  pub phy_shr : Bool
  pub phy_alt : Bool
  pub phy_ctrl : Bool
  pub capslock : Bool
  pub rshift_reported : Bool
  pub key_state : ℕ → KeySlot
  pub mouse_mode : Bool
  pub mouse_dir : Dirs
  pub mouse_start_ns : ℕ  -- u64
  pub mouse_sub_x : ℤ
  pub mouse_sub_y : ℤ
  pub mouse_initial_step : ℤ
  pub mouse_base_speed : ℤ
  pub mouse_max_speed : ℤ
  pub mouse_start_delay_ms : ℤ
  pub mouse_accel_time_ms : ℤ
  pub kbd_bl_idx : ℕ
  pub saved_kbd_backlight : ℕ  -- uint8_t
  pub bl_flash_active : Bool
  pub last_keypress_at : ℕ  -- uint64_t

-- The driver's context, the machine, and the calls made so far, the newest first.
pub record World (D : Type 0) : Type 0 where
  pub ctx : KbdCtx
  pub dev : D
  pub out : List Effect

abbrev pub is_code : Keycode → Bool
is_code k = not (same_code k reserved)

module _ {D : Type 0} where
  abbrev pub emit : Effect → World D → World D
  emit e w = record w { out = e ∷ w.out }

  abbrev pub on_ctx : (KbdCtx → KbdCtx) → World D → World D
  on_ctx f w = record w { ctx = f w.ctx }

  abbrev pub set_slot : ℕ → EmitMode → Keycode → World D → World D
  set_slot phys m k w =
      let slot : KeySlot = record { emit_mode = m; keycode = k } in
      on_ctx (λ c. record c { key_state = update c.key_state phys slot }) w

abbrev pub picocalc_write_mask : ℕ
picocalc_write_mask = 2 ^ 7

module _ {D : Type 0} (p : Platform D) where
  unfoldable pub kbd_read_i2c_u8 : ℕ → World D → Ret ℕ × World D
  kbd_read_i2c_u8 reg w =
      let (r, d) = p.read_byte w.dev reg in (map_ret (λ v. v % 256) r, record w { dev = d })

  -- The attempt is logged with the register and the value that go to the bus.
  unfoldable pub kbd_write_i2c_u8 : ℕ → ℕ → World D → Ret ℕ × World D
  kbd_write_i2c_u8 reg val w =
      let reg' = bit_or reg picocalc_write_mask in
      let (r, d) = p.write_byte w.dev reg' val in
      (r, record w { dev = d; out = smbus_write reg' val ∷ w.out })

  unfoldable pub kbd_read_i2c_2u8 : ℕ → World D → Ret (ℕ × ℕ) × World D
  kbd_read_i2c_2u8 reg w =
      let (r, d) = p.read_word w.dev reg in
      (map_ret (λ v. (v % 256, v / 256 % 256)) r, record w { dev = d })

  unfoldable pub kbd_read_reg : ℕ → World D → Ret ℕ × World D
  unfolding kbd_read_i2c_2u8
  kbd_read_reg reg w = let (r, w') = kbd_read_i2c_2u8 reg w in (map_ret (λ b. b.1) r, w')

  -- `ctx->last_keypress_at = ktime_get_boottime_ns();`
  unfoldable pub stamp : World D → World D
  stamp w =
      let (t, d) = p.ktime w.dev in
      record w { ctx = record (w.ctx) { last_keypress_at = t }; dev = d }

-- ===== src/Fw/State.antt =====
-- The state of the firmware and the calls that leave it. `char` and `uint8_t` are bytes, `unsigned
-- long` has 32 bits.
use picocalc_ubuntu_kernel.Prelude.{ℕ, Bool, Option, List, ◌∷◌}
use picocalc_ubuntu_kernel.Fw.Fifo.{Fifo}

-- LCD backlight, keyboard backlight, power of the processor, amplifier, green LED
pub data Pin : Type 0 where
  pa8 pc8 pa13 pa14 pc13 : Pin

-- The modes of the charging LED: off, on, blinking at 1 Hz and 4 Hz, by the charger.
pub data LedMode : Type 0 where
  led_off led_on led_blink_1hz led_blink_4hz led_ctrl_chg : LedMode

-- The calls of the board's libraries that have an effect, with their arguments.
pub data Act : Type 0 where
  analog_write : Pin → ℕ → Act
  digital_write : Pin → Bool → Act
  charging_led : LedMode → Act
  delay_ms : ℕ → Act
  pmu_shutdown system_reset show_bat_segs : Act

-- struct list_item; `p_entry` is the number of the key, the buttons after the matrix.
pub record ListItem : Type 0 where
  pub p_entry : Option ℕ
  pub hold_start_time : ℕ
  pub last_repeat_time : ℕ
  pub item_state : ℕ

-- enum mod
pub data Mod : Type 0 where
  mod_none mod_sym mod_alt mod_shl mod_shr mod_ctrl : Mod

-- `self.mods`, by its index.
pub record Mods : Type 0 where
  pub sym_held : Bool
  pub alt_held : Bool
  pub shl_held : Bool
  pub shr_held : Bool
  pub ctrl_held : Bool

-- `self` of keyboard.ino; the callbacks are key_cb and, as nothing sets it, none.
pub record Keyboard : Type 0 where
  pub list : ℕ → ListItem
  pub last_process_time : ℕ
  pub mods : Mods
  pub capslock_changed : Bool
  pub capslock : Bool
  pub numlock_changed : Bool
  pub numlock : Bool

pub record Firmware : Type 0 where
  pub regs : ℕ → ℕ
  pub fifo : Fifo
  pub kbd : Keyboard
  pub keycb_start : Bool
  pub write_buffer : List ℕ  -- its first `write_buffer_len` bytes
  pub pmu_online : ℕ
  pub led_update_pending : Bool
  pub io_matrix : ℕ → ℕ
  pub js_bits : ℕ
  pub low_bat_count : ℕ
  pub run_time : ℕ
  pub pmu_flag : Bool
  pub head_phone_status : Bool
  pub acts : List Act  -- the newest first

abbrev pub act : Act → Firmware → Firmware
act a s = record s { acts = a ∷ s.acts }

abbrev pub on_kbd : (Keyboard → Keyboard) → Firmware → Firmware
on_kbd f s = record s { kbd = f s.kbd }

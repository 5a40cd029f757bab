-- ===== src/Kbd/Probe.antt =====
-- Probe, shutdown and removal of picocalc_kbd.c. What the kernel's allocators and registrations answer
-- is a parameter of each call. `none` is a fault: a use of the NULL `g_ctx`.
pub mod Lifecycle
use Prim.Native.Nat.{bit_and, bit_or}
use picocalc_ubuntu_kernel.Prelude.{
  ℕ, Bool, true, false, ◌&&◌, ◌==◌, if◌then◌else◌, Option, none, some, List, [], not,
}
use picocalc_ubuntu_kernel.Prelude.Int.{pos}
use picocalc_ubuntu_kernel.Input.{reserved, cancel_delayed_work, mouse_dw, bl_flash_work}
use picocalc_ubuntu_kernel.Platform.{Platform, Ret, value, failure, enomem}
use picocalc_ubuntu_kernel.Kbd.Context.{
  KbdCtx, World, emit, emit_none, kbd_read_reg, kbd_write_i2c_u8,
}
use picocalc_ubuntu_kernel.Kbd.Mouse.{no_dirs}
use picocalc_ubuntu_kernel.Kbd.Sysfs.{Global, reg_id_cfg, reg_id_off}

-- What the kernel answers during a probe; a number is 0 or the number of an error.
pub record Answers : Type 0 where
  pub ctx_allocated : Bool
  pub input_allocated : Bool
  pub input_register_device : ℕ
  pub kobj_allocated : Bool
  pub kobject_init_and_add : ℕ
  pub sysfs_create_group : ℕ

-- The module's static state: g_ctx, g_kbd_timer, picocalc_kobj and g_system_powering_off.
pub record Driver (D : Type 0) : Type 0 where
  pub g_ctx : Global D
  pub timer_armed : Bool
  pub kobj : Bool
  pub powering_off : Bool

-- The zeroed context, with the defaults that `input_probe` writes.
unfoldable pub new_ctx : ℕ → KbdCtx
new_ctx now = record {
  key_fifo_count = 0;
  key_fifo_data = λ i. record { state = 0; scancode = 0 };
  phy_shl = false;
  phy_shr = false;
  phy_alt = false;
  phy_ctrl = false;
  capslock = false;
  rshift_reported = false;
  key_state = λ q. record { emit_mode = emit_none; keycode = reserved };
  mouse_mode = false;
  mouse_dir = no_dirs;
  mouse_start_ns = 0;
  mouse_sub_x = pos 0;
  mouse_sub_y = pos 0;
  mouse_initial_step = pos 8;
  mouse_base_speed = pos 80;
  mouse_max_speed = pos 320;
  mouse_start_delay_ms = pos 80;
  mouse_accel_time_ms = pos 400;
  kbd_bl_idx = 0;
  saved_kbd_backlight = 0;
  bl_flash_active = false;
  last_keypress_at = now;
}

-- `cfg &= ~CFG_USE_MODS; cfg |= CFG_REPORT_MODS | CFG_KEY_INT;`
unfoldable pub raw_scancodes : ℕ → ℕ
raw_scancodes cfg = bit_or (bit_and cfg 0x7f) 0x50

module _ {D : Type 0} (p : Platform D) where
  unfoldable pub configure : World D → World D
  configure w =
      let (r, w') = kbd_read_reg p reg_id_cfg w in
      elim r [
        | value cfg ↦ (kbd_write_i2c_u8 p reg_id_cfg (raw_scancodes cfg) w').1
        | failure e ↦ w'
      ]

  unfoldable pub probed : D → World D
  unfolding configure new_ctx
  probed dev =
      let (now, d) = p.ktime dev in configure (record { ctx = new_ctx now; dev = d; out = [] })

  -- 0 or the number of the error that is returned, and the module's state that the call leaves; a
  -- failed probe's writes to the controller are not followed.
  unfoldable pub input_probe : Answers → D → Driver D → ℕ × Driver D
  unfolding probed
  input_probe a dev s =
      let armed : Driver D = record s { timer_armed = true } in
      if not a.ctx_allocated
      then (enomem, s)
      else if not a.input_allocated
      then (enomem, s)
      else if not (a.input_register_device == 0)
      then (a.input_register_device, armed)
      else (0, record armed { g_ctx = some (probed dev) })

  unfoldable pub sysfs_probe : Answers → Driver D → ℕ × Driver D
  sysfs_probe a s =
      let made : Driver D = record s { kobj = true } in
      if not a.kobj_allocated
      then (enomem, record s { kobj = false })
      else if not (a.kobject_init_and_add == 0)
      then (a.kobject_init_and_add, made)
      else if not (a.sysfs_create_group == 0)
      then (enomem, made)
      else (0, made)

  unfoldable pub picocalc_kbd_probe : Answers → D → Driver D → ℕ × Driver D
  picocalc_kbd_probe a dev s =
      let (rc, s') = input_probe a dev s in if rc == 0 then sysfs_probe a s' else (rc, s')

  -- The timer schedules the work of `g_ctx` and arms itself again.
  unfoldable pub kbd_timer_function : Driver D → Option (Driver D)
  kbd_timer_function s = elim s.g_ctx [
    | none ↦ none
    | some w ↦ some (record s { timer_armed = true })
  ]

  unfoldable pub input_shutdown : Driver D → Option (Driver D)
  input_shutdown s = elim s.g_ctx [
    | none ↦ none
    | some w ↦ some (record s { timer_armed = false; g_ctx = none })
  ]

  unfoldable pub sysfs_shutdown : Driver D → Driver D
  sysfs_shutdown s = record s { kobj = false }

  unfoldable pub picocalc_kbd_remove : Driver D → Option (Driver D)
  picocalc_kbd_remove s = input_shutdown (sysfs_shutdown s)

  -- `code == SYS_POWER_OFF`
  unfoldable pub picocalc_reboot_notify : Bool → Driver D → Driver D
  picocalc_reboot_notify is_power_off s = record s { powering_off = is_power_off }

  unfoldable pub picocalc_kbd_shutdown : Driver D → Driver D
  picocalc_kbd_shutdown s =
      let off : Global D = elim s.g_ctx [
        | none ↦ none
        | some w ↦ some (kbd_write_i2c_u8 p reg_id_off 6 w).1
      ] in
      if s.powering_off then record s { g_ctx = off } else s

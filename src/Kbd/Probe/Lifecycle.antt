-- ===== src/Kbd/Probe/Lifecycle.antt =====
-- What the probe of picocalc_kbd.c sets up, and what its failures leave behind.
use picocalc_ubuntu_kernel.Prelude.{
  ℕ, ◌/◌, ◌%◌, ◌<◌, ◌≡◌, refl, ◌≢◌, inl, Bool, true, false, ◌&&◌, ◌==◌, if◌then◌else◌, none, some,
  [], ◌∷◌, all_below, all_below_sound, arith,
}
use picocalc_ubuntu_kernel.Input.{is_down, smbus_write}
use picocalc_ubuntu_kernel.Platform.{Platform, value}
use picocalc_ubuntu_kernel.Kbd.Context.{World, kbd_read_reg, kbd_write_i2c_u8}
use picocalc_ubuntu_kernel.Kbd.Dispatch.Invariant.{Inv, Quiet-Inv}
use picocalc_ubuntu_kernel.Kbd.Dispatch.Quiet.{Quiet}
use picocalc_ubuntu_kernel.Kbd.Dispatch.Release.{AllUp}
use picocalc_ubuntu_kernel.Kbd.Sysfs.{reg_id_cfg}
use picocalc_ubuntu_kernel.Kbd.Sysfs.Checks.{ParamsOk}
use picocalc_ubuntu_kernel.Kbd.Probe.{
  Answers, Driver, configure, probed, new_ctx, raw_scancodes, input_probe, sysfs_probe,
  picocalc_kbd_probe, kbd_timer_function, picocalc_kbd_remove, picocalc_kbd_shutdown,
  picocalc_reboot_notify, input_shutdown, sysfs_shutdown,
}

raw_table :
    all_below 256 (λ c.
      raw_scancodes c / 128 == 0
      && raw_scancodes c / 64 % 2 == 1
      && raw_scancodes c / 16 % 2 == 1
      && raw_scancodes c % 16 == c % 16)
    ≡ true
unfolding all_below raw_scancodes
raw_table = refl

raw_bits :
    (c : ℕ)
    → c < 256
    → (raw_scancodes c / 128 ≡ 0)
      × (raw_scancodes c / 64 % 2 ≡ 1)
      × (raw_scancodes c / 16 % 2 ≡ 1)
      × (raw_scancodes c % 16 ≡ c % 16)
raw_bits c h = ground (
  arith,
  all_below_sound 256
      (λ c.
        raw_scancodes c / 128 == 0
        && raw_scancodes c / 64 % 2 == 1
        && raw_scancodes c / 16 % 2 == 1
        && raw_scancodes c % 16 == c % 16)
      c raw_table,
)

module _ {D : Type 0} (p : Platform D) where
  pub zeroed-Inv : (now : ℕ) (d : D) → Inv (record { ctx = new_ctx now; dev = d; out = [] })
  unfolding new_ctx is_down
  zeroed-Inv now d = record {
    slots = λ q. record { plain = ground arith; mouse = λ e. inl refl };
    shl = refl;
    alt = refl;
    ctrl = refl;
    shr = refl;
    supplement = λ e. cc;
    free = λ k h n f. refl;
  }

  configure-Quiet : (w : World D) → Quiet w (configure p w)
  unfolding configure is_down kbd_read_reg kbd_write_i2c_u8
  configure-Quiet w = ground arith

  configure-ctx : (w : World D) → (configure p w).ctx ≡ w.ctx
  unfolding configure kbd_read_reg kbd_write_i2c_u8
  configure-ctx w = ground arith

  -- A context that the probe has set up satisfies the state machine's invariant, has every key up, and
  -- has mouse parameters that are not negative, whatever the controller answers.
  pub probed-Inv :
      (dev : D) → Inv (probed p dev) × AllUp (probed p dev) × ParamsOk (probed p dev).ctx
  unfolding probed is_down kbd_read_reg kbd_write_i2c_u8
  probed-Inv dev =
      let w : World D = record { ctx = new_ctx (p.ktime dev).0; dev = (p.ktime dev).1; out = [] } in
      let same = configure-ctx w in
      (
        Quiet-Inv (configure-Quiet w) (zeroed-Inv (p.ktime dev).0 (p.ktime dev).1),
        record {
          slots = λ q. rw same;
          shl = rw same;
          shr = rw same;
          alt = rw same;
          ctrl = rw same;
        },
        rw same (ground arith),
      )

  -- A registration of the input device that fails leaves the timer armed with no context: its next run
  -- is a fault. (`s` is the state before the module's first probe.)
  pub failed_register_faults :
      (a : Answers) (dev : D) (s : Driver D)
      → a.ctx_allocated ≡ true
      → a.input_allocated ≡ true
      → a.input_register_device ≢ 0
      → s.g_ctx ≡ none
      → let (rc, s') = picocalc_kbd_probe p a dev s in
        (rc ≡ a.input_register_device) × (s'.timer_armed ≡ true) × (kbd_timer_function p s' ≡ none)
  unfolding picocalc_kbd_probe input_probe kbd_timer_function
  failed_register_faults a dev s c i r g = ground arith

  -- A probe that returns 0 has a context set up by `probed`, an armed timer and a kobject; its removal
  -- then runs without a fault and leaves none of the three.
  pub probe_then_remove :
      (a : Answers) (dev : D) (s : Driver D)
      → (picocalc_kbd_probe p a dev s).0 ≡ 0
      → let s' = (picocalc_kbd_probe p a dev s).1 in
        (s'.g_ctx ≡ some (probed p dev))
        × (s'.timer_armed ≡ true)
        × (s'.kobj ≡ true)
        × (picocalc_kbd_remove p s'
            ≡ some (record s' { g_ctx = none; timer_armed = false; kobj = false }))
  unfolding picocalc_kbd_probe input_probe sysfs_probe picocalc_kbd_remove input_shutdown
      sysfs_shutdown
  probe_then_remove a dev s ok = ground arith

  -- A probe that fails in its sysfs part returns an error, but leaves the timer armed and the context in
  -- use, though the kernel frees the memory of a device whose probe failed.
  pub failed_sysfs_keeps_running :
      (a : Answers) (dev : D) (s : Driver D)
      → (input_probe p a dev s).0 ≡ 0
      → (picocalc_kbd_probe p a dev s).0 ≢ 0
      → let s' = (picocalc_kbd_probe p a dev s).1 in
        (s'.timer_armed ≡ true) × (s'.g_ctx ≡ some (probed p dev))
  unfolding picocalc_kbd_probe input_probe sysfs_probe
  failed_sysfs_keeps_running a dev s ok bad = ground arith

  -- The keyboard controller is told to cut the power, after 6 seconds, exactly when the last reboot
  -- notice was a power-off; after another notice the shutdown changes nothing.
  pub power_cut_on_poweroff :
      (is_power_off : Bool) (w : World D) (s : Driver D)
      → s.g_ctx ≡ some w
      → picocalc_kbd_shutdown p (picocalc_reboot_notify p is_power_off s) ≡ record s {
        powering_off = is_power_off;
        g_ctx = if is_power_off then some (kbd_write_i2c_u8 p 0x0e 6 w).1 else s.g_ctx;
      }
  unfolding picocalc_kbd_shutdown picocalc_reboot_notify
  power_cut_on_poweroff is_power_off w s g = ground arith

  -- Where the configuration register can be read, the probe writes it back with bit 7 (the firmware's
  -- modifiers) off, bits 6 and 4 (modifier reports and the key interrupt) on, and bits 0 to 3 kept.
  pub configure_writes :
      (r : ℕ) (w : World D)
      → (p.read_word w.dev reg_id_cfg).0 ≡ value r
      → (b : ℕ) × ((configure p w).out ≡ smbus_write 0x82 b ∷ w.out)
        × (b / 128 ≡ 0)
        × (b / 64 % 2 ≡ 1)
        × (b / 16 % 2 ≡ 1)
        × (b % 16 ≡ r / 256 % 16)
  unfolding configure kbd_read_reg kbd_write_i2c_u8
  configure_writes r w e =
      let bits = raw_bits (r / 256 % 256) (omega arith) in
      (raw_scancodes (r / 256 % 256), ground arith, bits.0, bits.1, bits.2, omega (arith, bits.3))

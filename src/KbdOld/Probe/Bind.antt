-- ===== src/KbdOld/Probe/Bind.antt =====
-- The timer of the v1.2 driver behind a probe, and behind a removal.
use picocalc_ubuntu_kernel.Prelude.{true, false, none, some, Bool, ◌≡◌, ◌&&◌, ◌≢◌, arith}
use picocalc_ubuntu_kernel.Platform.{Platform}
use picocalc_ubuntu_kernel.KbdOld.Probe.{
  Answers, Driver, picocalc_kbd_remove, kbd_timer_function, picocalc_kbd_probe, enomem, fresh,
}

-- The kernel frees the memory of a device and touches nothing else of the driver.
pub record Frees {D : Type 0} (devres_release_all : Driver D → Driver D) : Type 0 where
  pub gone : (s : Driver D) → (devres_release_all s).allocated ≡ false
  pub timer : (s : Driver D) → (devres_release_all s).timer_armed ≡ s.timer_armed

-- All the memory of input_probe was there.
abbrev pub got_memory : Answers → Bool
got_memory a = a.ctx_allocated && a.keycode_map_copied && a.input_allocated

module _ {D : Type 0} (p : Platform D) (devres_release_all : Driver D → Driver D) where
  -- From a driver whose timer is not armed. A probe that succeeds leaves the timer armed and its function
  -- running, and a removal behind it disarms the timer and forgets the context; a probe that fails
  -- because memory for the input device is missing leaves the timer alone; but a probe that fails later,
  -- in the registration or in the sysfs files, leaves the timer armed over memory that the kernel then
  -- frees, so that the timer's function faults.
  pub timer_behind_probe :
      (a : Answers) (s : Driver D)
      → s.timer_armed ≡ false
      → Frees devres_release_all
      → let (rc, s') = picocalc_kbd_probe p a s in
        let freed = devres_release_all s' in
        let removed = picocalc_kbd_remove s' in
        (rc ≡ 0
          → (got_memory a ≡ true)
            × (s'.timer_armed ≡ true)
            × (kbd_timer_function s' ≡ some s')
            × (removed.timer_armed ≡ false)
            × (removed.g_ctx ≡ false))
        × (got_memory a ≡ false → (rc ≡ enomem) × (freed.timer_armed ≡ false))
        × (rc ≢ 0
            → got_memory a ≡ true
            → (freed.timer_armed ≡ true) × (kbd_timer_function freed ≡ none))
  unfolding picocalc_kbd_probe picocalc_kbd_remove kbd_timer_function fresh
  timer_behind_probe a s idle frees =
      let s' = (picocalc_kbd_probe p a s).1 in ground (arith, idle, frees.gone s', frees.timer s')

-- ===== src/Fw/Power/Lights.antt =====
-- Who drives the LEDs.
-- The driver holds the LEDs, and nothing was done to the board.
use picocalc_ubuntu_kernel.Fw.Keys.{key_cb, on_overflow, pressed, released}
use picocalc_ubuntu_kernel.Fw.Regs.{reg_is_bit_set, reg_set_value, reg_set_bit}
use picocalc_ubuntu_kernel.Prelude.{refl, ap, ◌∙◌}
use picocalc_ubuntu_kernel.Fw.Power.Interrupts.{Handlers, pmu_interrupts-keep}
use picocalc_ubuntu_kernel.Prelude.{List, ◌≡◌, arith, if◌then◌else◌, ◌≤◌, if_cases, ◌==◌}
use picocalc_ubuntu_kernel.Fw.State.{Firmware, Act}
use picocalc_ubuntu_kernel.Fw.Power.{
  check_pmu_int, led_driver_active, sync_bat, reg_id_bat, reg_id_led, ℕ, ℤ, Bool, Readings, low_bat,
  start_chg, stop_chg, timed_check, false, true, ltb_ℤ, pos, ltb, key_power, not, bit_and,
  led_driver_ctrl,
}
use picocalc_ubuntu_kernel.Fw.Keys.{sub32}

record Left (acts : List Act) (s : Firmware) : Type 0 where
  active : led_driver_active s ≡ true
  quiet : s.acts ≡ acts

-- The LED register, and what was done to the board, are as before.
record Aside (s s' : Firmware) : Type 0 where
  led : s'.regs reg_id_led ≡ s.regs reg_id_led
  board : s'.acts ≡ s.acts

Aside-Left : (acts : List Act) (s s' : Firmware) → Aside s s' → Left acts s → Left acts s'
unfolding led_driver_active reg_is_bit_set
Aside-Left acts s s' a h = record {
  active = ap (λ v. not (bit_and v led_driver_ctrl == 0)) a.led ∙ h.active;
  quiet = a.board ∙ h.quiet;
}

key_cb-Aside : (key state : ℕ) (s : Firmware) → Aside s (key_cb key state s)
unfolding key_cb on_overflow reg_set_bit
key_cb-Aside key state s = ground arith

sync_bat-Aside : (pcnt : ℤ) (charging : Bool) (s : Firmware) → Aside s (sync_bat pcnt charging s)
unfolding sync_bat reg_set_value
sync_bat-Aside pcnt charging s = record { led = refl; board = refl }

no_battery-Aside : (s : Firmware) → Aside s (reg_set_value reg_id_bat 0 s)
unfolding reg_set_value
no_battery-Aside s = record { led = refl; board = refl }

module _ (acts : List Act) where
  low_bat-Left : (pcnt : ℤ) (s : Firmware) → Left acts s → Left acts (low_bat pcnt s)
  unfolding low_bat
  low_bat-Left pcnt s h = rw (low_bat, h.active) h

  stop_chg-Left : (pcnt : ℤ) (s : Firmware) → Left acts s → Left acts (stop_chg pcnt s)
  unfolding stop_chg
  stop_chg-Left pcnt s h = rw (stop_chg, h.active) h

  start_chg-Left : (s : Firmware) → Left acts s → Left acts (start_chg s)
  unfolding start_chg
  start_chg-Left s h = rw (start_chg, h.active) h

  sync_bat-Left :
      (pcnt : ℤ) (charging : Bool) (s : Firmware)
      → Left acts s
      → Left acts (sync_bat pcnt charging s)
  sync_bat-Left pcnt charging s h =
      Aside-Left acts s (sync_bat pcnt charging s) (sync_bat-Aside pcnt charging s) h

  key_cb-Left : (key state : ℕ) (s : Firmware) → Left acts s → Left acts (key_cb key state s)
  key_cb-Left key state s h = Aside-Left acts s (key_cb key state s) (key_cb-Aside key state s) h

  timed_check-Left :
      (now again : ℕ) (r : Readings) (s : Firmware)
      → Left acts s
      → Left acts (timed_check now again r s)
  unfolding timed_check
  timed_check-Left now again r s h =
      let timed : Firmware = record s { run_time = again } in
      let h' : Left acts timed = Aside-Left acts s timed (record { led = refl; board = refl }) h in
      let checked = if ltb_ℤ r.percent (pos 0) then timed else low_bat r.low_percent timed in
      if_cases (Left acts) (ltb 20000 (sub32 now s.run_time))
        (sync_bat r.percent r.charging checked) s
        (λ _. sync_bat-Left r.percent r.charging checked (
          if_cases (Left acts) (ltb_ℤ r.percent (pos 0)) timed (low_bat r.low_percent timed)
            (λ _. h') (λ _. low_bat-Left r.low_percent timed h')))
        (λ _. h)

  Handlers-Left :
      (r : Readings)
      → r.drop_warning_level1 ≡ false
      → r.pekey_long_press ≡ false
      → Handlers (Left acts) r
  Handlers-Left r no_drop no_long = record {
    level1 = λ e. absurd (ground (arith, e, no_drop));
    vbus = stop_chg-Left;
    inserted = λ pcnt t. sync_bat-Left pcnt true t;
    removed = λ pcnt t h.
        stop_chg-Left pcnt (reg_set_value reg_id_bat 0 t)
          (Aside-Left acts t (reg_set_value reg_id_bat 0 t) (no_battery-Aside t) h);
    short = key_cb-Left key_power pressed;
    long = λ e. absurd (ground (arith, e, no_long));
    negative = key_cb-Left key_power released;
    full = λ b t h. stop_chg-Left b.1 (sync_bat b.0 true t) (sync_bat-Left b.0 true t h);
    started = λ b t h.
        if_cases (Left acts) b.1 _ _
          (λ _. start_chg-Left (sync_bat b.0 true t) (sync_bat-Left b.0 true t h))
          (λ _. sync_bat-Left b.0 true t h);
  }

-- While the driver has claimed the LEDs in the LED register, no round of the power code touches an LED
-- or any other pin, whatever the battery and the power chip say, but for the two interrupts that
-- switch the board off and a power-off that was asked for.
pub leds_left_to_driver :
    (now again : ℕ) (r : Readings) (s : Firmware)
    → led_driver_active s ≡ true
    → s.pmu_online ≤ 1
    → r.drop_warning_level1 ≡ false
    → r.pekey_long_press ≡ false
    → (check_pmu_int now again r s).acts ≡ s.acts
unfolding check_pmu_int
leds_left_to_driver now again r s active online no_drop no_long =
    let Kept = λ (t : Firmware). t.acts ≡ s.acts in
    let s' = timed_check now again r s in
    let h' : Left s.acts s' =
      timed_check-Left s.acts now again r s (record { active = active; quiet = refl }) in
    let flagged : Firmware = record s' { pmu_flag = false } in
    let h'' : Left s.acts flagged =
      Aside-Left s.acts s' flagged (record { led = refl; board = refl }) h' in
    if_cases Kept (s.pmu_online == 0) _ _ (λ _. refl)
      λ _.
        if_cases Kept (ltb 1 s.pmu_online) _ _ (λ e. absurd (ground (arith, e, online)))
          λ _.
            if_cases Kept s'.pmu_flag _ _
              (λ _.
                (pmu_interrupts-keep (Left s.acts) r (Handlers-Left s.acts r no_drop no_long)
                  flagged h'').quiet)
              (λ _. h'.quiet)

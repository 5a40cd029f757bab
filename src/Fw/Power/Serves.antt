-- ===== src/Fw/Power/Serves.antt =====
-- The power code puts only the power key's events into the ring.
use picocalc_ubuntu_kernel.Fw.Power.Interrupts.{pmu_interrupts-keep}
use picocalc_ubuntu_kernel.Prelude.{refl}
use picocalc_ubuntu_kernel.Fw.Regs.{reg_set_value}
use picocalc_ubuntu_kernel.Fw.Keys.{pressed, hold, released, sub32, key_cb}
use picocalc_ubuntu_kernel.Fw.Events.{FedBy, key_cb-Fed}
use picocalc_ubuntu_kernel.Prelude.{
  Bool, ℕ, ◌≡◌, if_cases, ◌⊎◌, ◌==◌, if◌then◌else◌, arith, ◌&&◌, ◌+◌, ◌%◌, ◌^◌, inr, inl,
}
use picocalc_ubuntu_kernel.Fw.Power.{
  check_pmu_int, low_bat, pmu_interrupts, start_chg, stop_chg, sync_bat, timed_check, Firmware,
  Readings, power_down, ℤ, led_driver_active, ltb, act, false, is_low, charging_led, ltb_ℤ,
  key_power, led_off, pos, pos_part, leb, true, reg_id_bat, check_hp_det, led_apply, led_round,
  bit_and, reg_get_value, reg_id_led, led_orange_mask,
}

pub low_bat-Fed : (pcnt : ℤ) (s : Firmware) → FedBy s → FedBy (low_bat pcnt s)
unfolding low_bat
low_bat-Fed pcnt s h =
    if_cases FedBy (led_driver_active s) _ _ (λ _. h)
      λ _.
        if_cases FedBy (is_low pcnt) _ _
          (λ _.
            if_cases FedBy (ltb_ℤ (pos 1) pcnt) _ _ (λ _. h)
              (λ _.
                if_cases FedBy (pos_part pcnt == 0 && leb 4 ((s.low_bat_count + 1) % 2 ^ 32)) _ _
                  (λ _. h) (λ _. h)))
          (λ _. h)

start_chg-Fed : (s : Firmware) → FedBy s → FedBy (start_chg s)
unfolding start_chg
start_chg-Fed s h = if_cases FedBy (led_driver_active s) _ _ (λ _. h) (λ _. h)

stop_chg-Fed : (pcnt : ℤ) (s : Firmware) → FedBy s → FedBy (stop_chg pcnt s)
unfolding stop_chg
stop_chg-Fed pcnt s h =
    if_cases FedBy (led_driver_active s) _ _ (λ _. h)
      (λ _. low_bat-Fed pcnt (act (charging_led led_off) s) h)

sync_bat-Fed :
    (pcnt : ℤ) (charging : Bool) (s : Firmware) → FedBy s → FedBy (sync_bat pcnt charging s)
unfolding sync_bat reg_set_value
sync_bat-Fed pcnt charging s h = h

power_event :
    (state : ℕ)
    → (state ≡ pressed) ⊎ (state ≡ hold) ⊎ (state ≡ released)
    → (t : Firmware) → FedBy t
    → FedBy (key_cb key_power state t)
power_event state known t h =
    key_cb-Fed key_power state t (record { byte = omega arith; known = known }) h

timed_check-Fed :
    (now again : ℕ) (r : Readings) (s : Firmware) → FedBy s → FedBy (timed_check now again r s)
unfolding timed_check
timed_check-Fed now again r s h =
    let timed : Firmware = record s { run_time = again } in
    if_cases FedBy (ltb 20000 (sub32 now s.run_time)) _ _
      (λ _.
        sync_bat-Fed r.percent r.charging
          (if ltb_ℤ r.percent (pos 0) then timed else low_bat r.low_percent timed)
          (if_cases FedBy (ltb_ℤ r.percent (pos 0)) timed (low_bat r.low_percent timed) (λ _. h)
            (λ _. low_bat-Fed r.low_percent timed h)))
      (λ _. h)

pmu_interrupts-Fed : (r : Readings) (s : Firmware) → FedBy s → FedBy (pmu_interrupts r s)
unfolding reg_set_value power_down
pmu_interrupts-Fed r = pmu_interrupts-keep FedBy r (record {
  level1 = λ e t h. h;
  vbus = stop_chg-Fed;
  inserted = λ pcnt t h. sync_bat-Fed pcnt true t h;
  removed = λ pcnt t h. stop_chg-Fed pcnt (reg_set_value reg_id_bat 0 t) h;
  short = power_event pressed (inl refl);
  long = λ e t h. h;
  negative = power_event released (inr (inr refl));
  full = λ b t h. stop_chg-Fed b.1 (sync_bat b.0 true t) (sync_bat-Fed b.0 true t h);
  started = λ b t h.
      if_cases FedBy b.1 _ _ (λ _. start_chg-Fed (sync_bat b.0 true t) (sync_bat-Fed b.0 true t h))
        (λ _. sync_bat-Fed b.0 true t h);
})

pub check_pmu_int-Fed :
    (now again : ℕ) (r : Readings) (s : Firmware) → FedBy s → FedBy (check_pmu_int now again r s)
unfolding check_pmu_int power_down
check_pmu_int-Fed now again r s h =
    let s' = timed_check now again r s in
    let h' = timed_check-Fed now again r s h in
    if_cases FedBy (s.pmu_online == 0) _ _ (λ _. h)
      λ _.
        if_cases FedBy (ltb 1 s.pmu_online) _ _ (λ _. h)
          λ _.
            if_cases FedBy s'.pmu_flag _ _
              (λ _. pmu_interrupts-Fed r (record s' { pmu_flag = false }) h') (λ _. h')

led_apply-Fed : (s : Firmware) → FedBy s → FedBy (led_apply s)
unfolding led_apply
led_apply-Fed s h =
    let orange = bit_and (reg_get_value reg_id_led s) led_orange_mask in
    if_cases FedBy (orange == 0) _ _ (λ _. h)
      λ _.
        if_cases FedBy (orange == 2) _ _ (λ _. h)
          λ _.
            if_cases FedBy (orange == 4) _ _ (λ _. h)
              λ _.
                if_cases FedBy (orange == 6) _ _ (λ _. h)
                  λ _. if_cases FedBy (orange == 8) _ _ (λ _. h) (λ _. h)

pub led_round-Fed : (s : Firmware) → FedBy s → FedBy (led_round s)
unfolding led_round
led_round-Fed s h =
    if_cases FedBy s.led_update_pending _ _
      (λ _. led_apply-Fed (record s { led_update_pending = false }) h) (λ _. h)

pub check_hp_det-Fed : (plugged : Bool) (s : Firmware) → FedBy s → FedBy (check_hp_det plugged s)
unfolding check_hp_det
check_hp_det-Fed plugged s h = h

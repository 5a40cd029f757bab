-- ===== src/Fw/Power/Interrupts.antt =====
-- What every handler of an interrupt keeps, the interrupts keep.
-- The handlers of `pmu_interrupts` keep a property of the firmware.
use picocalc_ubuntu_kernel.Fw.Keys.{key_cb, pressed, released}
use picocalc_ubuntu_kernel.Prelude.{Bool, Option, ◌≡◌, if_cases, none}
use picocalc_ubuntu_kernel.Fw.Power.{
  Readings, pmu_interrupts, when, when_some, act, some, true, pmu_shutdown, indicator_led_off,
  stop_chg, ℤ, sync_bat, reg_set_value, reg_id_bat, key_power, power_down, start_chg,
}
use picocalc_ubuntu_kernel.Fw.State.{Firmware}

pub record Handlers (P : Firmware → Type 0) (r : Readings) : Type 0 where
  pub level1 :
      r.drop_warning_level1 ≡ true
      → (t : Firmware) → P t
      → P (act pmu_shutdown (indicator_led_off t))
  pub vbus : (pcnt : ℤ) (t : Firmware) → P t → P (stop_chg pcnt t)
  pub inserted : (pcnt : ℤ) (t : Firmware) → P t → P (sync_bat pcnt true t)
  pub removed : (pcnt : ℤ) (t : Firmware) → P t → P (stop_chg pcnt (reg_set_value reg_id_bat 0 t))
  pub short : (t : Firmware) → P t → P (key_cb key_power pressed t)
  pub long : r.pekey_long_press ≡ true → (t : Firmware) → P t → P (act pmu_shutdown (power_down t))
  pub negative : (t : Firmware) → P t → P (key_cb key_power released t)
  pub full : (b : ℤ × ℤ) (t : Firmware) → P t → P (stop_chg b.1 (sync_bat b.0 true t))
  pub started : (b : ℤ × Bool) (t : Firmware) → P t → P (when b.1 start_chg (sync_bat b.0 true t))

module _ (P : Firmware → Type 0) where
  keep_when :
      (b : Bool) (f : Firmware → Firmware) (s : Firmware)
      → (b ≡ true → (t : Firmware) → P t → P (f t))
      → P s
      → P (when b f s)
  keep_when b f s keeps h = if_cases P b (f s) s (λ e. keeps e s h) (λ _. h)

  keep_some {ℓ} :
      {A : Type ℓ} (o : Option A) (f : A → Firmware → Firmware) (s : Firmware)
      → ((a : A) (t : Firmware) → P t → P (f a t))
      → P s
      → P (when_some o f s)
  keep_some none f s keeps h = h
  keep_some (some a) f s keeps h = keeps a s h

  pub pmu_interrupts-keep :
      (r : Readings) → Handlers P r → (s : Firmware) → P s → P (pmu_interrupts r s)
  unfolding pmu_interrupts
  pmu_interrupts-keep r by s h =
      let s1 = when r.drop_warning_level1 (λ t. act pmu_shutdown (indicator_led_off t)) s in
      let s2 = when_some r.vbus_remove stop_chg s1 in
      let s3 = when_some r.bat_insert (λ pcnt. sync_bat pcnt true) s2 in
      let s4 = when_some r.bat_remove (λ pcnt t. stop_chg pcnt (reg_set_value reg_id_bat 0 t)) s3 in
      let s5 = when r.pekey_short_press (key_cb key_power pressed) s4 in
      let s6 = when r.pekey_long_press (λ t. act pmu_shutdown (power_down t)) s5 in
      let s7 = when r.pekey_negative (key_cb key_power released) s6 in
      let s8 = when_some r.charger_done (λ b t. stop_chg b.1 (sync_bat b.0 true t)) s7 in
      let h1 =
        keep_when r.drop_warning_level1 (λ t. act pmu_shutdown (indicator_led_off t)) s by.level1
          h in
      let h2 = keep_some r.vbus_remove stop_chg s1 by.vbus h1 in
      let h3 = keep_some r.bat_insert (λ pcnt. sync_bat pcnt true) s2 by.inserted h2 in
      let h4 =
        keep_some r.bat_remove (λ pcnt t. stop_chg pcnt (reg_set_value reg_id_bat 0 t)) s3
          by.removed h3 in
      let h5 = keep_when r.pekey_short_press (key_cb key_power pressed) s4 (λ _. by.short) h4 in
      let h6 = keep_when r.pekey_long_press (λ t. act pmu_shutdown (power_down t)) s5 by.long h5 in
      let h7 = keep_when r.pekey_negative (key_cb key_power released) s6 (λ _. by.negative) h6 in
      let h8 = keep_some r.charger_done (λ b t. stop_chg b.1 (sync_bat b.0 true t)) s7 by.full h7 in
      keep_some r.charger_start (λ b t. when b.1 start_chg (sync_bat b.0 true t)) s8 by.started h8

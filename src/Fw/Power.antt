-- ===== src/Fw/Power.antt =====
-- battery.ino, and check_pmu_int, sync_bat and check_hp_det of picocalc_keyboard.ino. Each reading of
-- the power chip stands for itself: a definition takes the readings that it makes as arguments.
pub mod Interrupts
pub mod Lights
pub mod Serves
use Prim.Native.Nat.{bit_and, bit_or}
use picocalc_ubuntu_kernel.Fw.Keys.{key_cb, sub32, pressed, released}
use picocalc_ubuntu_kernel.Fw.Regs.Ids.{
  reg_id_bat, reg_id_led, led_driver_ctrl, led_orange_mask, led_green_mask,
}
use picocalc_ubuntu_kernel.Fw.Regs.{reg_get_value, reg_is_bit_set, reg_set_value}
use picocalc_ubuntu_kernel.Prelude.Int.{ℤ, negsuc, ltb_ℤ, pos, pos_part}
use picocalc_ubuntu_kernel.Prelude.{
  Bool, Option, ℕ, if◌then◌else◌, not, some, ◌+◌, false, none, ◌%◌, ◌==◌, ltb, true, ◌&&◌, ◌^◌, ◌*◌,
  leb,
}
use picocalc_ubuntu_kernel.Fw.State.{
  Firmware, act, charging_led, digital_write, pmu_shutdown, led_blink_1hz, led_ctrl_chg, led_off,
  pa14, pc13, delay_ms, led_blink_4hz, led_on, pa13, analog_write, pc8, pa8,
}

-- LOW_BAT_VAL
abbrev pub low_bat_val : ℕ
low_bat_val = 20

abbrev pub key_power : ℕ
key_power = 0x91

-- The answers of the power chip in one call of check_pmu_int: the ones of the battery check, then the
-- interrupts, each with what its handler reads.
pub record Readings : Type 0 where
  pub percent : ℤ
  pub charging : Bool
  pub low_percent : ℤ
  pub drop_warning_level1 : Bool
  pub vbus_remove : Option ℤ
  pub bat_insert : Option ℤ
  pub bat_remove : Option ℤ
  pub pekey_short_press : Bool
  pub pekey_long_press : Bool
  pub pekey_negative : Bool
  pub charger_done : Option (ℤ × ℤ)
  pub charger_start : Option (ℤ × Bool)

unfoldable pub led_driver_active : Firmware → Bool
led_driver_active s = reg_is_bit_set reg_id_led led_driver_ctrl s

abbrev pub set_orange : ℕ → Firmware → Firmware
set_orange orange s =
    if orange == 0
    then act (charging_led led_off) s
    else if orange == 2
    then act (charging_led led_on) s
    else if orange == 4
    then act (charging_led led_blink_1hz) s
    else if orange == 6
    then act (charging_led led_blink_4hz) s
    else if orange == 8
    then act (charging_led led_ctrl_chg) s
    else s

unfoldable pub led_apply : Firmware → Firmware
led_apply s =
    let val = reg_get_value reg_id_led s in
    set_orange (bit_and val led_orange_mask)
      (act (digital_write pc13 (bit_and val led_green_mask == 0)) s)

-- The green LED is lit by a low level.
abbrev pub indicator_led_on : Firmware → Firmware
indicator_led_on s = act (digital_write pc13 false) s

abbrev pub indicator_led_off : Firmware → Firmware
indicator_led_off s = act (digital_write pc13 true) s

abbrev pub is_low : ℤ → Bool
is_low pcnt = not (ltb_ℤ pcnt (pos 0)) && not (ltb_ℤ (pos low_bat_val) pcnt)

unfoldable pub low_bat : ℤ → Firmware → Firmware
low_bat pcnt s =
    let counted : Firmware = record s { low_bat_count = (s.low_bat_count + 1) % 2 ^ 32 } in
    let dark = indicator_led_off counted in
    let warned = act (charging_led led_blink_4hz) dark in
    if led_driver_active s
    then s
    else if is_low pcnt
    then if ltb_ℤ (pos 1) pcnt
      then act (charging_led led_on) dark
      else if pos_part pcnt == 0 && leb 4 counted.low_bat_count
      then act pmu_shutdown warned
      else warned
    else act (charging_led led_off) (indicator_led_on (record s { low_bat_count = 0 }))

unfoldable pub start_chg : Firmware → Firmware
start_chg s =
    if led_driver_active s then s else act (charging_led led_blink_1hz) (indicator_led_on s)

unfoldable pub stop_chg : ℤ → Firmware → Firmware
stop_chg pcnt s = if led_driver_active s then s else low_bat pcnt (act (charging_led led_off) s)

-- What REG_ID_BAT shows: 0 without a battery, else the percentage and bit 7 for charging.
unfoldable pub bat_value : ℤ → Bool → ℕ
bat_value (negsuc n) charging = 0
bat_value (pos n) charging = (if charging then bit_or n 128 else n) % 256

unfoldable pub sync_bat : ℤ → Bool → Firmware → Firmware
sync_bat pcnt charging s = reg_set_value reg_id_bat (bat_value pcnt charging) s

-- Everything off: both backlights, the processor, the amplifier and the green LED.
unfoldable pub power_down : Firmware → Firmware
power_down s = act (charging_led led_ctrl_chg) (
    act (digital_write pc13 true) (
      act (digital_write pa14 false)
        (act (digital_write pa13 false) (act (analog_write pc8 0) (act (analog_write pa8 0) s)))))

-- The check of the battery every 20 seconds.
unfoldable pub timed_check : ℕ → ℕ → Readings → Firmware → Firmware
timed_check now again r s =
    let timed : Firmware = record s { run_time = again } in
    let checked = if ltb_ℤ r.percent (pos 0) then timed else low_bat r.low_percent timed in
    if ltb 20000 (sub32 now s.run_time) then sync_bat r.percent r.charging checked else s

abbrev pub when : Bool → (Firmware → Firmware) → Firmware → Firmware
when b f s = if b then f s else s

abbrev pub when_some {ℓ} : {A : Type ℓ} → Option A → (A → Firmware → Firmware) → Firmware → Firmware
when_some none f s = s
when_some (some a) f s = f a s

-- The interrupts of the power chip, in the order in which they are looked at.
unfoldable pub pmu_interrupts : Readings → Firmware → Firmware
pmu_interrupts r s =
    let s1 = when r.drop_warning_level1 (λ t. act pmu_shutdown (indicator_led_off t)) s in
    let s2 = when_some r.vbus_remove stop_chg s1 in
    let s3 = when_some r.bat_insert (λ pcnt. sync_bat pcnt true) s2 in
    let s4 = when_some r.bat_remove (λ pcnt t. stop_chg pcnt (reg_set_value reg_id_bat 0 t)) s3 in
    let s5 = when r.pekey_short_press (key_cb key_power pressed) s4 in
    let s6 = when r.pekey_long_press (λ t. act pmu_shutdown (power_down t)) s5 in
    let s7 = when r.pekey_negative (key_cb key_power released) s6 in
    let s8 = when_some r.charger_done (λ b t. stop_chg b.1 (sync_bat b.0 true t)) s7 in
    when_some r.charger_start (λ b t. when b.1 start_chg (sync_bat b.0 true t)) s8

unfoldable pub check_pmu_int : ℕ → ℕ → Readings → Firmware → Firmware
check_pmu_int now again r s =
    let s' = timed_check now again r s in
    if s.pmu_online == 0
    then s
    else if ltb 1 s.pmu_online
    then act pmu_shutdown (act (delay_ms (1000 * s.pmu_online)) (power_down s))
    else if s'.pmu_flag
    then pmu_interrupts r (record s' { pmu_flag = false })
    else s'

-- The amplifier is off while a headphone is plugged in.
unfoldable pub check_hp_det : Bool → Firmware → Firmware
check_hp_det plugged s = record (act (digital_write pa14 (not plugged)) s) {
  head_phone_status = plugged;
}

-- The LED part of the main loop.
unfoldable pub led_round : Firmware → Firmware
led_round s =
    if s.led_update_pending then led_apply (record s { led_update_pending = false }) else s

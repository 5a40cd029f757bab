-- ===== src/Fw/Setup.antt =====
-- setup of picocalc_keyboard.ino without the calls that only configure a
-- pin, the serial port, the I2C bus or the power chip.
use mathlib.Core.Option.{none-ne-some}
use picocalc_ubuntu_kernel.Fw.PowerOn.{power_on, no_mods}
use picocalc_ubuntu_kernel.Fw.Scan.Distinct.{Distinct}
use picocalc_ubuntu_kernel.Fw.Power.Serves.{low_bat-Fed}
use picocalc_ubuntu_kernel.Fw.Events.{FedBy}
use picocalc_ubuntu_kernel.Fw.Fifo.Queue.{waiting}
use picocalc_ubuntu_kernel.Fw.Power.{sync_bat, low_bat}
use picocalc_ubuntu_kernel.Prelude.Int.{ℤ, pos}
use picocalc_ubuntu_kernel.Fw.Backlight.{lcd_backlight_update}
use picocalc_ubuntu_kernel.Prelude.{
  Bool, false, tabulate, if◌then◌else◌, arith, true, sym, ◌≡◌, ap, ◌∙◌,
}
use picocalc_ubuntu_kernel.Fw.State.{
  Firmware, on_kbd, act, delay_ms, digital_write, pa13, pa14, pc13, analog_write, pa8, charging_led,
  led_ctrl_chg,
}
use picocalc_ubuntu_kernel.Fw.Regs.{reg_init, reg_set_value}

unfoldable pub keyboard_init : Firmware → Firmware
keyboard_init s = on_kbd (λ k. record k { mods = no_mods }) s

-- With the answer of PMU.begin, and what sync_bat and low_bat read.
unfoldable pub setup : Bool → ℤ → Bool → ℤ → Firmware → Firmware
setup result pcnt charging low_pcnt s =
    let s1 = act (delay_ms 10) (reg_init (act (digital_write pa13 false) s)) in
    let s2 : Firmware = record s1 { pmu_online = if result then 1 else 0 } in
    let s3 = act (digital_write pa14 true) (act (digital_write pc13 false) s2) in
    let s4 = keyboard_init (act (analog_write pa8 100) s3) in
    let s5 = act (digital_write pa13 true) (lcd_backlight_update (pos 0) s4) in
    let s6 = act (charging_led led_ctrl_chg) s5 in
    low_bat low_pcnt (sync_bat pcnt charging (record s6 { run_time = 0; keycb_start = true }))

setup_ring :
    (result charging : Bool) (pcnt low_pcnt : ℤ)
    → FedBy (setup result pcnt charging low_pcnt power_on)
unfolding setup reg_init keyboard_init lcd_backlight_update sync_bat reg_set_value waiting tabulate
setup_ring result charging pcnt low_pcnt =
    low_bat-Fed low_pcnt _ (record { valid = ground arith; events = tt })

low_bat-kbd : (pcnt : ℤ) (s : Firmware) → (low_bat pcnt s).kbd ≡ s.kbd
unfolding low_bat
low_bat-kbd pcnt s = ground arith

setup_kbd :
    (result charging : Bool) (pcnt low_pcnt : ℤ)
    → (setup result pcnt charging low_pcnt power_on).kbd ≡ power_on.kbd
unfolding setup reg_init keyboard_init lcd_backlight_update sync_bat reg_set_value
setup_kbd result charging pcnt low_pcnt = low_bat-kbd low_pcnt _

-- After setup the ring is empty and the list of keys holds none.
pub setup_lem :
    (result charging : Bool) (pcnt low_pcnt : ℤ)
    → let s = setup result pcnt charging low_pcnt power_on in FedBy s × Distinct s
setup_lem result charging pcnt low_pcnt = (
  setup_ring result charging pcnt low_pcnt,
  record {
    unique = λ i j e a b h k. absurd (
        none-ne-some e
          (sym (ap (λ q. (q.list i).p_entry) (setup_kbd result charging pcnt low_pcnt)) ∙ h));
  },
)

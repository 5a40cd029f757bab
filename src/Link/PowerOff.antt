-- ===== src/Link/PowerOff.antt =====
-- A power-off from Linux to the board.
-- What the firmware does to the board, the newest act first.
use picocalc_ubuntu_kernel.Prelude.{refl}
use picocalc_ubuntu_kernel.Kbd.Sysfs.{reg_id_off}
use picocalc_ubuntu_kernel.Fw.Bus.{receive_event, rcv_loop, command, off_register}
use picocalc_ubuntu_kernel.Link.{controller, []}
use picocalc_ubuntu_kernel.Fw.State.{
  Act, pmu_shutdown, Firmware, delay_ms, charging_led, led_ctrl_chg, digital_write, pc13, pa14,
  pa13, analog_write, pc8, pa8,
}
use picocalc_ubuntu_kernel.Kbd.Context.{kbd_write_i2c_u8, World}
use picocalc_ubuntu_kernel.Fw.Power.{check_pmu_int, power_down, Readings}
use picocalc_ubuntu_kernel.Prelude.{
  ℕ, List, ◌∷◌, ◌*◌, true, false, ◌≡◌, if◌then◌else◌, ltb, ◌++◌, arith,
}

abbrev pub off_acts : ℕ → List Act
off_acts seconds =
    pmu_shutdown
    ∷ delay_ms (1000 * seconds)
    ∷ charging_led led_ctrl_chg
    ∷ digital_write pc13 true
    ∷ digital_write pa14 false
    ∷ digital_write pa13 false
    ∷ analog_write pc8 0
    ∷ analog_write pa8 0
    ∷ []

module _ {K : Type 0} (tick : K → ℕ × K) (stack : ℕ × ℕ) where
  off_stored :
      (v : ℕ) (w : World (Firmware × K))
      → (kbd_write_i2c_u8 (controller tick stack) reg_id_off v w).1.dev.0
        ≡ record (w.dev.0) { pmu_online = if ltb v 6 then 6 else v; write_buffer = 14 ∷ 1 ∷ [] }
  unfolding kbd_write_i2c_u8 controller receive_event rcv_loop command off_register
  off_stored v w = refl

  -- The driver's write of a delay of v seconds to the power-off register makes the firmware's next look at
  -- the power chip switch the board off, and nothing else: both backlights, the processor, the amplifier
  -- and the LEDs first, then the wait of v seconds, at least 6, and the power chip last.
  pub power_off_obeyed :
      (now again : ℕ) (r : Readings) (v : ℕ) (w : World (Firmware × K))
      → (check_pmu_int now again r
          (kbd_write_i2c_u8 (controller tick stack) reg_id_off v w).1.dev.0).acts
        ≡ off_acts (if ltb v 6 then 6 else v) ++ w.dev.0.acts
  unfolding check_pmu_int power_down
  power_off_obeyed now again r v w = rw (off_stored v w) (ground arith)

-- ===== src/SoftPwm/Pulses.antt =====
-- The pulses of the microcontroller.
use picocalc_ubuntu_kernel.SoftPwm.{timer_isr, Mcu, main_round}
use picocalc_ubuntu_kernel.Prelude.{ℕ, ◌<◌, ◌≡◌, true, false, ◌+◌, arith}

-- Two interrupts in a row with one duty below the period make one whole pulse: the pins are high for
-- the duty and low for the rest of the 375 counts, and the third interrupt starts the next pulse.
pub pulse_fills_period :
    (duty : ℕ) (m : Mcu)
    → 0 < duty
    → duty < 375
    → m.flag ≡ true
    → let m1 = timer_isr duty m in
      let m2 = timer_isr duty m1 in
      (m1.level ≡ true)
      × (m1.count ≡ duty)
      × (m2.level ≡ false)
      × (m1.count + m2.count ≡ 375)
      × (m2.flag ≡ true)
      × (m2.enable ≡ m.enable)
unfolding timer_isr
pulse_fills_period duty m some_duty below flag = ground arith

-- When the interrupt that starts a pulse reads the duty 0, the pins stay low and the sound is off; the
-- main loop then does nothing while the duty is 0, and its first round that reads another duty turns
-- the sound on again, with that duty as the timer's count.
pub silence_then_sound :
    (duty : ℕ) (m : Mcu)
    → 0 < duty
    → m.flag ≡ true
    → let off = timer_isr 0 m in
      (off.level ≡ false)
      × (off.enable ≡ false)
      × (main_round 0 off ≡ off)
      × (main_round duty off ≡ record off { count = duty; running = true; enable = true })
unfolding timer_isr main_round
silence_then_sound duty m some_duty flag = ground arith

-- ===== src/Fw/Loop.antt =====
-- `loop` of picocalc_keyboard.ino with its watchdog of the I2C bus, nbDelay_ms, and show_bat_segs of
-- battery.ino. Each reading of the clock, the pins and the power chip is an argument.
pub mod Waits
pub mod Watchdog
use Prim.Native.Nat.{bit_and}
use picocalc_ubuntu_kernel.Fw.Regs.Ids.{reg_id_rst}
use picocalc_ubuntu_kernel.Fw.Bus.{rcv_loop, request_event, receive_event}
use picocalc_ubuntu_kernel.Prelude.{
  false, List, [], ◌∷◌, Bool, ℕ, Option, if◌then◌else◌, ltb, suc, none, zero, ◌&&◌, ◌==◌, ◌||◌, not,
  some,
}
use picocalc_ubuntu_kernel.Prelude.Int.{ℤ, pos, ltb_ℤ}
use picocalc_ubuntu_kernel.Fw.State.{Firmware, act, delay_ms, digital_write, pc13}
use picocalc_ubuntu_kernel.Fw.Keys.{sub32}
use picocalc_ubuntu_kernel.Fw.Power.{
  Readings, check_pmu_int, check_hp_det, led_round, indicator_led_on, indicator_led_off, start_chg,
}
use picocalc_ubuntu_kernel.Fw.Scan.{Look, keyboard_process}

-- The flashes, then the level that the LED had.
unfoldable pub flash_one_time : ℕ → Bool → Firmware → Firmware
flash_one_time zero restore_status s = act (digital_write pc13 restore_status) s
flash_one_time (suc ts) restore_status s =
    flash_one_time ts restore_status
      (act (delay_ms 200) (indicator_led_off (act (delay_ms 400) (indicator_led_on s))))

abbrev pub segments : ℤ → ℕ
segments pcnt =
    if ltb_ℤ (pos 0) pcnt && ltb_ℤ pcnt (pos 33)
    then 1
    else if not (ltb_ℤ pcnt (pos 33)) && ltb_ℤ pcnt (pos 66)
    then 2
    else if not (ltb_ℤ pcnt (pos 66)) && not (ltb_ℤ (pos 100) pcnt)
    then 3
    else 0

unfoldable pub show_segments : Bool → ℤ → Bool → Bool → Firmware → Firmware
unfolding flash_one_time
show_segments connected pcnt last_d201_status charging s =
    let n = segments pcnt in
    let shown = if n == 0 then s else flash_one_time n last_d201_status s in
    if not connected then s else if charging then start_chg shown else shown

-- receiveEventTick and requestEventTick, and how often the bus was set up again.
pub record Watch : Type 0 where
  pub receive_event_tick : ℕ
  pub request_event_tick : ℕ
  pub resets : ℕ

-- Whether a message resets the processor.
abbrev pub resets_board : ℕ × ℕ → List ℕ → Bool
resets_board stack bytes = bit_and (rcv_loop bytes false stack).0 0x7f == reg_id_rst

-- receiveEvent at the time `now`, with its tick: neither where no byte is available. A reset clears both
-- ticks.
unfoldable pub receive_watched : ℕ → ℕ × ℕ → List ℕ → Firmware × Watch → Firmware × Watch
receive_watched now stack [] x = x
receive_watched now stack (c ∷ cs) (s, w) =
    let told : Watch = record w { receive_event_tick = now } in
    let cleared : Watch = record w { receive_event_tick = 0; request_event_tick = 0 } in
    (receive_event stack (c ∷ cs) s, if resets_board stack (c ∷ cs) then cleared else told)

-- requestEvent at the time `now`, with its tick.
unfoldable pub request_watched : ℕ → Firmware × Watch → List ℕ × (Firmware × Watch)
request_watched now (s, w) =
    let (bytes, s') = request_event s in (bytes, (s', record w { request_event_tick = now }))

-- ResetI2CBus, with its two readings of the clock.
unfoldable pub reset_i2c_bus : ℕ → ℕ → Watch → Watch
reset_i2c_bus a b w = record {
  receive_event_tick = a;
  request_event_tick = b;
  resets = suc w.resets;
}

-- The watchdog, with its three readings of the clock and those of ResetI2CBus.
unfoldable pub watch_bus : ℕ → ℕ → ℕ → ℕ → ℕ → Watch → Watch
unfolding reset_i2c_bus
watch_bus up m1 m2 a b w =
    let late =
      ltb 2500 (sub32 m1 w.receive_event_tick) || ltb 2500 (sub32 m2 w.request_event_tick) in
    if ltb 10000 up && late then reset_i2c_bus a b w else w

-- The readings of one round.
pub record LoopRound : Type 0 where
  pub power_now : ℕ
  pub power_again : ℕ
  pub readings : Readings
  pub scan_now : ℕ
  pub scan_finished : ℕ
  pub look : Look
  pub uptime : ℕ
  pub receive_now : ℕ
  pub request_now : ℕ
  pub reset_receive : ℕ
  pub reset_request : ℕ
  pub plugged : Bool

unfoldable pub loop_round : LoopRound → Firmware × Watch → Firmware × Watch
unfolding watch_bus
loop_round r (s, w) =
    let s1 = check_pmu_int r.power_now r.power_again r.readings (led_round s) in
    let s2 = keyboard_process r.scan_now r.scan_finished r.look s1 in
    let w' = watch_bus r.uptime r.receive_now r.request_now r.reset_receive r.reset_request w in
    (check_hp_det r.plugged s2, w')

-- nbDelay_ms, with `fuel` readings of the clock from number `i` on: the number of the reading that ends
-- it, or none if they are used up.
unfoldable pub nb_delay_ms : ℕ → (ℕ → ℕ) → ℕ → ℕ → ℕ → Option ℕ
nb_delay_ms zero millis last_tick n i = none
nb_delay_ms (suc fuel) millis last_tick n i =
    let later = nb_delay_ms fuel millis last_tick n (suc i) in
    if ltb (sub32 (millis i) last_tick) n then later else some i

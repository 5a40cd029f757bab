-- ===== src/Fw/Loop/Waits.antt =====
-- The waits of the firmware's main loop, and what the battery display leaves of the green LED.
use picocalc_ubuntu_kernel.Fw.Keys.{sub32}
use picocalc_ubuntu_kernel.Prelude.{
  ℕ, ◌≤◌, ◌+◌, suc, ◌≡◌, some, zero, Bool, List, arith, subst, ◌<◌, Bool-cases, Option, true, ◌*◌,
  ◌∷◌, [], false, ltb, none, if_cases, inr, inl, refl, ◌==◌, ◌∙◌,
}
use picocalc_ubuntu_kernel.Fw.Loop.{
  nb_delay_ms, flash_one_time, show_segments, segments, ℤ, indicator_led_off, indicator_led_on,
}
use picocalc_ubuntu_kernel.Fw.State.{Firmware, Act, act, delay_ms, digital_write, pc13}

module _ (millis : ℕ → ℕ) (last n : ℕ) where
  delay_done :
      (fuel i : ℕ) → n ≤ sub32 (millis i) last → nb_delay_ms (suc fuel) millis last n i ≡ some i
  unfolding nb_delay_ms
  delay_done fuel i late = ground (arith, late)

  delay_on :
      (fuel i : ℕ)
      → sub32 (millis i) last < n
      → nb_delay_ms (suc fuel) millis last n i ≡ nb_delay_ms fuel millis last n (suc i)
  unfolding nb_delay_ms
  delay_on fuel i early = ground (arith, early)

  Ends : ℕ → ℕ → Type 0
  Ends k i =
      (j : ℕ) × (nb_delay_ms (suc k) millis last n i ≡ some j)
      × (j ≤ i + k)
      × (n ≤ sub32 (millis j) last)

  delay-Ends : (k i : ℕ) → n ≤ sub32 (millis (i + k)) last → Ends k i
  unfolding Ends
  delay-Ends zero i late =
      let now : n ≤ sub32 (millis i) last =
        subst (λ x. n ≤ sub32 (millis x) last) (omega arith) late in
      (i, delay_done 0 i now, omega arith, now)
  delay-Ends (suc k) i late = elim (Bool-cases (ltb (sub32 (millis i) last) n)) [
    | inr now ↦
        let now' : n ≤ sub32 (millis i) last = ground (arith, now) in
        (i, delay_done (suc k) i now', omega arith, now')
    | inl early ↦
        let (j, e, bound, enough) =
          delay-Ends k (suc i) (subst (λ x. n ≤ sub32 (millis x) last) (omega arith) late) in
        (j, delay_on (suc k) i (ground (arith, early)) ∙ e, omega (arith, bound), enough)
  ]

  -- nbDelay_ms ends when some reading of the clock is late enough, at that one or before, and not
  -- before the time has passed.
  pub delay_ends :
      (k : ℕ)
      → n ≤ sub32 (millis k) last
      → (j : ℕ) × (nb_delay_ms (suc k) millis last n 0 ≡ some j)
        × (j ≤ k)
        × (n ≤ sub32 (millis j) last)
  unfolding Ends
  delay_ends k late =
      let (j, e, bound, enough) =
        delay-Ends k 0 (subst (λ x. n ≤ sub32 (millis x) last) (omega arith) late) in
      (j, e, omega (arith, bound), enough)

-- The level of the green LED's pin, by the last call that set it, and the time spent in delay.
unfoldable pub green : List Act → Option Bool
green [] = none
green (digital_write pc13 level ∷ acts) = some level
green (a ∷ acts) = green acts

unfoldable pub waited : List Act → ℕ
waited [] = 0
waited (delay_ms ms ∷ acts) = ms + waited acts
waited (a ∷ acts) = waited acts

flash_restores_led :
    (ts : ℕ) (level : Bool) (s : Firmware)
    → let s' = flash_one_time ts level s in
      (green s'.acts ≡ some level) × (waited s'.acts ≡ 600 * ts + waited s.acts)
unfolding flash_one_time green waited
flash_restores_led zero level s = (refl, omega arith)
flash_restores_led (suc ts) level s =
    let (g, w) =
      flash_restores_led ts level
        (act (delay_ms 200) (indicator_led_off (act (delay_ms 400) (indicator_led_on s)))) in
    (g, omega (arith, w))

-- While nothing charges, the display of the battery leaves the green LED at the level that it had, and
-- takes 0.6 seconds for each of the flashes that stand for the percentage.
pub segments_shown :
    (pcnt : ℤ) (level : Bool) (s : Firmware)
    → green s.acts ≡ some level
    → let s' = show_segments true pcnt level false s in
      (green s'.acts ≡ some level) × (waited s'.acts ≡ 600 * segments pcnt + waited s.acts)
unfolding show_segments
segments_shown pcnt level s lit =
    let Shown : Firmware → Type 0 =
      λ t. (green t.acts ≡ some level) × (waited t.acts ≡ 600 * segments pcnt + waited s.acts) in
    if_cases Shown (segments pcnt == 0) _ _ (λ e. (lit, ground (arith, e)))
      (λ _. flash_restores_led (segments pcnt) level s)

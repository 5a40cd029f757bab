-- ===== src/SoftPwm/Playback.antt =====
-- The position in the buffer, the periods and the duties over a run of the timer's callback.
use native.Mathlib.Nat.{suc-mul, suc-add}
use picocalc_ubuntu_kernel.SoftPwm.{
  Runtime, sample_duty, Sound, default_pwm_period, softpwm_hrtimer_callback, set_duty,
  softpwm_pcm_trigger, first_duty, softpwm_enable, trigger_start, inc32,
}
use picocalc_ubuntu_kernel.Prelude.{
  false, refl, zero, suc, all_below, ℕ, leb, ◌+◌, ◌<◌, ◌≤◌, arith, ◌&&◌, ◌^◌, ◌≡◌, all_below_sound,
  if◌then◌else◌, true, subst, ◌-◌, Bool, ◌*◌, ◌∙◌, sym,
}

-- n runs of the callback: the number of periods that elapsed, and the state that is left.
unfoldable pub ticks : Runtime → ℕ → Sound → ℕ × Sound
ticks rt zero s = (0, s)
ticks rt (suc n) s =
    let (total, s1) = ticks rt n s in
    let (t, s2) = softpwm_hrtimer_callback rt s1 in (if t.elapsed then suc total else total, s2)

duty_steps :
    all_below 256 (λ b. leb (sample_duty b) (sample_duty (suc b)) && leb (sample_duty b) 374) ≡ true
unfolding all_below sample_duty
duty_steps = refl

duty_step : (b : ℕ) → b < 256 → (sample_duty b ≤ sample_duty (suc b)) × (sample_duty b ≤ 374)
duty_step b h = ground (
  arith,
  all_below_sound 256 (λ b. leb (sample_duty b) (sample_duty (suc b)) && leb (sample_duty b) 374) b
      duty_steps,
)

duty_ext : (b n : ℕ) → b + n < 256 → sample_duty b ≤ sample_duty (b + n)
duty_ext b zero h = ground arith
duty_ext b (suc n) h =
    ground (arith, duty_ext b n (omega arith), (duty_step (b + n) (omega arith)).0)

-- The duty grows with the sample, from 0 for silence to at most 374, so that it always ends before the
-- period of 375 counts.
pub duty_grows :
    (b c : ℕ)
    → b ≤ c
    → c < 256
    → (sample_duty b ≤ sample_duty c) × (sample_duty c < default_pwm_period) × (sample_duty 0 ≡ 0)
unfolding sample_duty
duty_grows b c le h = (
  subst (λ x. sample_duty b ≤ sample_duty x) {x = b + (c - b)} (omega arith)
      (duty_ext b (c - b) (omega arith)),
  ground (arith, (duty_step c h).1),
  refl,
)

-- The stream plays one channel, and both duties are those of the sample at `data_ptr`.
pub record InStep (rt : Runtime) (s : Sound) : Type 0 where
  pub on : s.is_on ≡ true
  pub mono : s.channels ≡ 1
  pub data_in : s.data_ptr < rt.buffer_size
  pub period_in : s.period_ptr < rt.period_size
  pub left : s.left_duty ≡ sample_duty (rt.dma_area s.data_ptr)
  pub right : s.right_duty ≡ sample_duty (rt.dma_area s.data_ptr)

module _ (rt : Runtime) (big : rt.buffer_size < 2 ^ 32) (long : rt.period_size < 2 ^ 32) where
  start-InStep :
      (s : Sound)
      → s.channels ≡ 1
      → 0 < rt.buffer_size
      → 0 < rt.period_size
      → InStep rt (softpwm_pcm_trigger rt trigger_start s).1
  unfolding softpwm_pcm_trigger first_duty softpwm_enable
  start-InStep s mono b p = ground arith

  abbrev next_ptr : Sound → ℕ
  next_ptr s = if leb rt.buffer_size (s.data_ptr + 1) then 0 else s.data_ptr + 1

  callback_eq :
      (s : Sound)
      → InStep rt s
      → let d = sample_duty (rt.dma_area (next_ptr s)) in
        let ended = leb rt.period_size (s.period_ptr + 1) in
        softpwm_hrtimer_callback rt s ≡ (
          record { restart = true; elapsed = ended },
          record s {
            data_ptr = next_ptr s;
            left_duty = d;
            right_duty = d;
            period_ptr = if ended then 0 else s.period_ptr + 1;
          },
        )
  unfolding softpwm_hrtimer_callback set_duty
  callback_eq s i =
      let e1 : inc32 s.data_ptr ≡ s.data_ptr + 1 = ground (arith, i.data_in) in
      let e2 : inc32 s.period_ptr ≡ s.period_ptr + 1 = ground (arith, i.period_in) in
      rw (e1, e2, i.on, i.mono) refl

  step-InStep : (s : Sound) → InStep rt s → InStep rt (softpwm_hrtimer_callback rt s).1
  step-InStep s i = rw (callback_eq s i) (ground (arith, i))

  step_counts :
      (s : Sound)
      → InStep rt s
      → let (t, s') = softpwm_hrtimer_callback rt s in
        (s.data_ptr + 1
          ≡ (if leb rt.buffer_size (s.data_ptr + 1) then rt.buffer_size else 0) + s'.data_ptr)
        × (s.period_ptr + 1 ≡ (if t.elapsed then rt.period_size else 0) + s'.period_ptr)
  step_counts s i = rw (callback_eq s i) (ground (arith, i))

  laps_step :
      (m c : ℕ) (wraps : Bool) (at now next : ℕ)
      → m * c + at ≡ now
      → at + 1 ≡ (if wraps then c else 0) + next
      → (if wraps then suc m else m) * c + next ≡ suc now
  laps_step m c true at now next e step = rw suc-mul (omega arith)
  laps_step m c false at now next e step = omega arith

  counts :
      (n : ℕ) (s : Sound)
      → InStep rt s
      → let (total, s') = ticks rt n s in
        InStep rt s'
        × (total * rt.period_size + s'.period_ptr ≡ n + s.period_ptr)
        × ((laps : ℕ) × (laps * rt.buffer_size + s'.data_ptr ≡ n + s.data_ptr))
  unfolding ticks
  counts zero s i = (i, omega arith, (0, omega arith))
  counts (suc n) s i =
      let (i1, periods, (laps, around)) = counts n s i in
      let s1 = (ticks rt n s).1 in
      let (position, period) = step_counts s1 i1 in
      let t = (softpwm_hrtimer_callback rt s1).0 in
      (
        step-InStep s1 i1,
        laps_step (ticks rt n s).0 rt.period_size t.elapsed s1.period_ptr (n + s.period_ptr) _
              periods period
            ∙ sym (suc-add n s.period_ptr),
        (
          if leb rt.buffer_size (s1.data_ptr + 1) then suc laps else laps,
          laps_step laps rt.buffer_size (leb rt.buffer_size (s1.data_ptr + 1)) s1.data_ptr
                (n + s.data_ptr) _ around position
              ∙ sym (suc-add n s.data_ptr),
        ),
      )

  -- After a start of a stream with one channel and n runs of the timer's callback, both duties are
  -- those of the sample that is n steps on in the ring of the buffer, and the callback has reported
  -- as many periods as fit into n steps; neither position leaves its range.
  pub playback :
      (n : ℕ) (s : Sound)
      → s.channels ≡ 1
      → 0 < rt.buffer_size
      → 0 < rt.period_size
      → let (total, s') = ticks rt n (softpwm_pcm_trigger rt trigger_start s).1 in
        InStep rt s'
        × (total * rt.period_size + s'.period_ptr ≡ n)
        × ((laps : ℕ) × (laps * rt.buffer_size + s'.data_ptr ≡ n))
  unfolding softpwm_pcm_trigger first_duty softpwm_enable
  playback n s mono b p =
      let s0 = (softpwm_pcm_trigger rt trigger_start s).1 in
      let at0 : s0.data_ptr ≡ 0 = rw mono refl in
      let (i, periods, (laps, around)) = counts n s0 (start-InStep s mono b p) in
      (i, periods ∙ omega arith, (laps, around ∙ omega arith))

  -- With two channels the callback plays one sample on both, and its second step through the buffer
  -- goes unchecked: from the last pair of a buffer the position becomes the buffer's size.
  pub stereo_runs_past :
      (s : Sound)
      → s.is_on ≡ true
      → s.channels ≡ 2
      → s.data_ptr + 2 ≡ rt.buffer_size
      → let s' = (softpwm_hrtimer_callback rt s).1 in
        (s'.left_duty ≡ s'.right_duty) × (s'.data_ptr ≡ rt.buffer_size)
  unfolding softpwm_hrtimer_callback set_duty
  stereo_runs_past s on two last =
      let e1 : inc32 s.data_ptr ≡ s.data_ptr + 1 = ground (arith, big, last) in
      rw (on, two, e1) (refl, ground (arith, big, last))

-- ===== src/HwPwm/Playback.antt =====
-- Runs of the callback: the position in the buffer and the duties.
use picocalc_ubuntu_kernel.HwPwm.{
  Stream, picocalc_pcm_trigger, SndDev, Call, pwm_config, pwm_enable, hrtimer_start, period_elapsed,
  cb1, ℕ, Bool, picocalc_pwm_enable, true, leb, sndrv_start, sndrv_stop, duty_ns, false, next32,
}
use native.Mathlib.Nat.{suc-mul}
use picocalc_ubuntu_kernel.Prelude.{
  refl, zero, suc, ◌<◌, ◌^◌, ◌≡◌, if◌then◌else◌, ◌*◌, ◌+◌, arith, ap, ◌∙◌, List, [], ◌∷◌, Option,
  some, none,
}

-- The stream plays and its position is inside the buffer.
pub record Playing (rt : Stream) (s : SndDev) : Type 0 where
  pub on : s.is_on ≡ true
  pub inside : s.data_ptr < rt.buffer_size

-- The duty that the channel has: that of the last call of pwm_config, the newest call first.
unfoldable pub channel : List Call → Option ℕ
channel [] = none
channel (pwm_config duty period ∷ rest) = some duty
channel (pwm_enable ∷ rest) = channel rest
channel (hrtimer_start period ∷ rest) = channel rest
channel (period_elapsed ∷ rest) = channel rest

-- n runs of the callback.
unfoldable pub runs : Stream → ℕ → SndDev → SndDev
runs rt zero s = s
runs rt (suc n) s = (cb1 rt (runs rt n s)).1

module _ (rt : Stream) (big : rt.buffer_size < 2 ^ 32) where
  abbrev wraps : SndDev → Bool
  wraps s = leb rt.buffer_size (s.data_ptr + 1)

  run_Playing :
      (s : SndDev)
      → Playing rt s
      → let s' = (cb1 rt s).1 in
        Playing rt s'
        × (s'.data_ptr ≡ (if wraps s then 0 else s.data_ptr + 1))
        × (s'.duty_cycle_ns ≡ duty_ns (rt.dma_area s.data_ptr))
  unfolding cb1
  run_Playing s p =
      let e : next32 s.data_ptr ≡ s.data_ptr + 1 = ground (arith, p.inside) in
      (
        record { on = ground (arith, p.on); inside = ground (arith, p.on, p.inside, e) },
        ground (arith, p.on, e),
        ground (arith, p.on),
      )

  lap :
      (laps at n : ℕ) (full : Bool)
      → laps * rt.buffer_size + at ≡ n
      → (full ≡ true → at + 1 ≡ rt.buffer_size)
      → (if full then suc laps else laps) * rt.buffer_size + (if full then 0 else at + 1) ≡ suc n
  lap laps at n true e last = rw suc-mul (omega (arith, e, last refl))
  lap laps at n false e last = omega (arith, e)

  counted :
      (n : ℕ) (s : SndDev)
      → Playing rt s
      → s.data_ptr ≡ 0
      → Playing rt (runs rt n s)
        × ((laps : ℕ) × (laps * rt.buffer_size + (runs rt n s).data_ptr ≡ n))
  unfolding runs
  counted zero s p start = (p, (0, omega (arith, start)))
  counted (suc n) s p start =
      let (q, (laps, e)) = counted n s p start in
      let t = runs rt n s in
      let (q', next, _) = run_Playing t q in
      (
        q',
        (
          if wraps t then suc laps else laps,
          ap (λ x. (if wraps t then suc laps else laps) * rt.buffer_size + x) next
              ∙ lap laps t.data_ptr n (wraps t) e (λ full. ground (arith, full, q.inside)),
        ),
      )

  heard :
      (s : SndDev)
      → Playing rt s
      → channel (cb1 rt s).1.calls ≡ some (duty_ns (rt.dma_area s.data_ptr))
  unfolding cb1 channel
  heard s p = ground (arith, p.on)

  -- With a buffer of one sample at least and fewer than 2 ^ 32. After a start and n runs of the callback,
  -- the driver plays on, its position inside the buffer is the
  -- place that n samples reach going round, and the next run sets the duty of the channel, and of the
  -- struct, to that of the sample at that place.
  pub samples_in_order :
      (n : ℕ) (s : SndDev)
      → 0 < rt.buffer_size
      → let t = runs rt n (picocalc_pcm_trigger rt sndrv_start s).1 in
        Playing rt t
        × ((laps : ℕ) × (laps * rt.buffer_size + t.data_ptr ≡ n))
        × (channel (cb1 rt t).1.calls ≡ some (duty_ns (rt.dma_area t.data_ptr)))
        × ((cb1 rt t).1.duty_cycle_ns ≡ duty_ns (rt.dma_area t.data_ptr))
  unfolding picocalc_pcm_trigger picocalc_pwm_enable
  samples_in_order n s some_there =
      let s0 = (picocalc_pcm_trigger rt sndrv_start s).1 in
      let (p, l) = counted n s0 (record { on = refl; inside = some_there }) refl in
      let t = runs rt n s0 in (p, l, heard t p, (run_Playing t p).2)

  stopped :
      (s : SndDev)
      → s.is_on ≡ true
      → let s' = (picocalc_pcm_trigger rt sndrv_stop s).1 in
        (s'.calls ≡ s.calls) × (s'.duty_cycle_ns ≡ 0) × (cb1 rt s' ≡ (false, s'))
  unfolding picocalc_pcm_trigger cb1
  stopped s on = rw on (refl, refl, refl)

  idle_runs : (m : ℕ) (s : SndDev) → (cb1 rt s).1 ≡ s → runs rt m s ≡ s
  unfolding runs
  idle_runs zero s e = refl
  idle_runs (suc m) s e = ap (λ x. (cb1 rt x).1) (idle_runs m s e) ∙ e

  -- With a buffer of one sample at least and fewer than 2 ^ 32. After a start, n + 1 runs of the callback
  -- and a stop, the field for the duty is 0, but the channel
  -- still has the duty of the sample that was played last, whatever number of runs of the callback
  -- follows: the timer does not go on, and no run changes anything.
  pub stop_leaves_level :
      (n m : ℕ) (s : SndDev)
      → 0 < rt.buffer_size
      → let t = runs rt n (picocalc_pcm_trigger rt sndrv_start s).1 in
        let s' = (picocalc_pcm_trigger rt sndrv_stop (cb1 rt t).1).1 in
        (channel (runs rt m s').calls ≡ some (duty_ns (rt.dma_area t.data_ptr)))
        × (s'.duty_cycle_ns ≡ 0)
        × (runs rt m s' ≡ s')
        × ((cb1 rt s').0 ≡ false)
  stop_leaves_level n m s some_there =
      let (p, _, level, _) = samples_in_order n s some_there in
      let t = runs rt n (picocalc_pcm_trigger rt sndrv_start s).1 in
      let (kept, zeroed, idle) = stopped (cb1 rt t).1 (run_Playing t p).0.on in
      let s' = (picocalc_pcm_trigger rt sndrv_stop (cb1 rt t).1).1 in
      let rests : runs rt m s' ≡ s' = idle_runs m s' (ap (λ r. r.1) idle) in
      (
        ap (λ x. channel x.calls) rests ∙ (ap channel kept ∙ level),
        zeroed,
        rests,
        ap (λ r. r.0) idle,
      )

-- ===== src/SoftPwm/Examples.antt =====
-- The sound driver at concrete inputs.
use picocalc_ubuntu_kernel.SoftPwm.Stereo.{Stereo}
use picocalc_ubuntu_kernel.SoftPwm.Stereo.Channels.{
  channels_apart, StereoStep, looks, left_isr, right_isr, look, isr, left_steps, right_steps,
  left_channel, right_channel, mono_run, stereo_run,
}
use picocalc_ubuntu_kernel.SoftPwm.Pulses.{pulse_fills_period}
use picocalc_ubuntu_kernel.SoftPwm.Playback.{ticks, InStep, playback}
use picocalc_ubuntu_kernel.SoftPwm.{
  Mcu, Runtime, timer_isr, Sound, mcu_start, softpwm_pcm_trigger, trigger_start,
}
use picocalc_ubuntu_kernel.Prelude.{
  refl, ℕ, ◌%◌, ◌≡◌, false, true, arith, none, ◌+◌, ◌*◌, List, ◌∷◌, [],
}

abbrev tone : Runtime
tone = record { dma_area = λ i. i % 256; buffer_size = 1024; period_size = 256 }

abbrev quiet : ℕ → Sound
quiet channels = record {
  data_ptr = 1022;
  period_ptr = 3;
  channels = channels;
  is_on = true;
  left_duty = 0;
  right_duty = 0;
  timer_ns = none;
}

abbrev waiting : Mcu
waiting = mcu_start

playback_example :
    let (total, s') = ticks tone 3000 (softpwm_pcm_trigger tone trigger_start (quiet 1)).1 in
    InStep tone s'
    × (total * 256 + s'.period_ptr ≡ 3000)
    × ((laps : ℕ) × (laps * 1024 + s'.data_ptr ≡ 3000))
playback_example =
    playback tone (ground arith) (ground arith) 3000 (quiet 1) refl (ground arith) (ground arith)

pulse_fills_period_example :
    let m1 = timer_isr 146 waiting in
    let m2 = timer_isr 146 m1 in
    (m1.level ≡ true)
    × (m1.count ≡ 146)
    × (m2.level ≡ false)
    × (m1.count + m2.count ≡ 375)
    × (m2.flag ≡ true)
    × (m2.enable ≡ waiting.enable)
pulse_fills_period_example = pulse_fills_period 146 waiting (ground arith) (ground arith) refl

abbrev both_ready : Stereo
both_ready = record {
  left_enable = false;
  left_flag = true;
  left_level = false;
  left_count = 0;
  left_running = false;
  right_enable = false;
  right_flag = true;
  right_level = false;
  right_count = 0;
  right_running = false;
}

abbrev mixed : List StereoStep
mixed = looks 100 0 ∷ left_isr 100 ∷ looks 100 50 ∷ right_isr 50 ∷ left_isr 100 ∷ []

channels_apart_example :
    (left_channel (stereo_run mixed both_ready)
      ≡ mono_run (look 100 ∷ isr 100 ∷ look 100 ∷ isr 100 ∷ []) waiting)
    × (right_channel (stereo_run mixed both_ready)
        ≡ mono_run (look 0 ∷ look 50 ∷ isr 50 ∷ []) waiting)
unfolding left_steps right_steps
channels_apart_example = channels_apart mixed both_ready

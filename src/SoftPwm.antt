-- ===== src/SoftPwm.antt =====
-- Sound by pulse width: src/kernel-6.1/sound/pwm/picocalc-softpwm.c plays the samples of a buffer into
-- a duty in shared memory, and the microcontroller's timer (hal/project/rk3506-mcu/src/main.c, built
-- without STEREO) turns the duty into pulses. `u32` arithmetic is modulo 2 ^ 32.
pub mod Playback
pub mod Stereo
pub mod Pulses
mod Examples
use picocalc_ubuntu_kernel.Prelude.{
  Bool, false, if◌then◌else◌, ℕ, Option, leb, not, some, true, ◌*◌, ◌+◌, ◌==◌, ◌%◌, ◌&&◌, ◌^◌, ◌-◌,
  ◌/◌,
}
use picocalc_ubuntu_kernel.Platform.{Ret, value, failure, einval}

abbrev pub default_pwm_period : ℕ
default_pwm_period = 375

abbrev pub default_period : ℕ
default_period = 125000

-- The fields of the substream's runtime that the driver reads; a sample is a byte.
pub record Runtime : Type 0 where
  pub dma_area : ℕ → ℕ
  pub buffer_size : ℕ
  pub period_size : ℕ

-- struct softpwm_sound with the struct softpwm_config that it points to.
pub record Sound : Type 0 where
  pub data_ptr : ℕ
  pub period_ptr : ℕ
  pub channels : ℕ
  pub is_on : Bool
  pub left_duty : ℕ
  pub right_duty : ℕ
  pub timer_ns : Option ℕ  -- the period of the hrtimer, once it was started

abbrev pub inc32 : ℕ → ℕ
inc32 a = (a + 1) % 2 ^ 32

-- `(u32)data * (u32)(DEFAULT_PWM_PERIOD - 1) / 255`
unfoldable pub sample_duty : ℕ → ℕ
sample_duty b = b * 374 % 2 ^ 32 / 255

-- The `switch` over the channels.
unfoldable pub set_duty : Runtime → Sound → Sound
set_duty rt s =
    let d = sample_duty (rt.dma_area s.data_ptr) in
    if s.channels == 1
    then record s { left_duty = d; right_duty = d }
    else if s.channels == 2
    then record s { left_duty = d; right_duty = d; data_ptr = inc32 s.data_ptr }
    else s

-- What the callback answers: whether the timer runs again, and whether a period has elapsed.
pub record Tick : Type 0 where
  pub restart : Bool
  pub elapsed : Bool

unfoldable pub softpwm_hrtimer_callback : Runtime → Sound → Tick × Sound
softpwm_hrtimer_callback rt s =
    let next = inc32 s.data_ptr in
    let s1 : Sound = record s { data_ptr = if leb rt.buffer_size next then 0 else next } in
    let s2 = set_duty rt s1 in
    let period = inc32 s.period_ptr in
    let ended = leb rt.period_size period in
    if not s.is_on then (record { restart = false; elapsed = false }, s) else (
      record { restart = true; elapsed = ended },
      record s2 { period_ptr = if ended then 0 else period },
    )

unfoldable pub softpwm_enable : Sound → ℕ × Sound
softpwm_enable s = (0, record s { timer_ns = some default_period })

unfoldable pub softpwm_disable : Sound → Sound
softpwm_disable s = record s { left_duty = 0; right_duty = 0 }

-- snd_pcm's stream directions, as far as the driver tells them apart.
unfoldable pub softpwm_pcm_hw_params : Bool → ℕ → Sound → Ret ℕ × Sound
softpwm_pcm_hw_params playback channels s =
    if playback then (value 0, record s { channels = channels }) else (failure einval, s)

pub data Command : Type 0 where
  trigger_start trigger_stop trigger_other : Command

-- The first samples, which a start plays at once.
unfoldable pub first_duty : Runtime → Sound → Sound
first_duty rt s =
    let d = sample_duty (rt.dma_area 0) in
    if s.channels == 1
    then record s { left_duty = d; right_duty = d; data_ptr = 0 }
    else if s.channels == 2
    then record s { left_duty = d; right_duty = sample_duty (rt.dma_area 1); data_ptr = 1 }
    else s

abbrev pub eio : ℕ
eio = 5

unfoldable pub softpwm_pcm_trigger : Runtime → Command → Sound → Ret ℕ × Sound
unfolding softpwm_enable
softpwm_pcm_trigger rt trigger_start s =
    let (rc, s1) = softpwm_enable (record (first_duty rt s) { period_ptr = 0 }) in
    if rc == 0 then (value 0, record s1 { is_on = true }) else (failure eio, s1)
softpwm_pcm_trigger rt trigger_stop s =
    if not s.is_on
    then (value 0, s)
    else (value 0, record s { is_on = false; left_duty = 0; right_duty = 0 })
softpwm_pcm_trigger rt trigger_other s = (failure einval, s)

unfoldable pub softpwm_pcm_pointer : Sound → ℕ
softpwm_pcm_pointer s = s.data_ptr

-- The microcontroller: `enable`, `flag`, the level of its two pins, the count of its timer and whether
-- the timer runs.
pub record Mcu : Type 0 where
  pub enable : Bool
  pub flag : Bool
  pub level : Bool
  pub count : ℕ
  pub running : Bool

-- main, up to its loop.
abbrev pub mcu_start : Mcu
mcu_start = record { enable = false; flag = true; level = false; count = 0; running = false }

-- The timer's interrupt, with the duty that it reads.
unfoldable pub timer_isr : ℕ → Mcu → Mcu
timer_isr duty m =
    let high : Mcu = record m { level = true; count = duty } in
    let pulse : Mcu = if duty == 0 then record high { enable = false; level = false } else high in
    let gap : Mcu = record m { level = false; count = (375 + (2 ^ 32 - duty % 2 ^ 32)) % 2 ^ 32 } in
    record (if m.flag then pulse else gap) { flag = not m.flag; running = true }

-- One round of main's loop.
unfoldable pub main_round : ℕ → Mcu → Mcu
main_round duty m =
    if not (duty == 0) && not m.enable
    then record m { count = duty; running = true; enable = true }
    else m

-- ===== src/HwPwm.antt =====
-- modules-drivers/picocalc_snd_hw_pwm/picocalc_snd_pwm.c: sound by a PWM channel of the processor. A
-- timer callback turns one 16-bit sample into one duty.
pub mod Playback
mod Examples
use picocalc_ubuntu_kernel.Prelude.{
  Bool, false, ℕ, ◌∷◌, List, [], if◌then◌else◌, leb, ◌+◌, ◌/◌, ltb, not, ◌%◌, ◌==◌, true, ◌-◌, ◌^◌,
  ◌*◌,
}
use picocalc_ubuntu_kernel.Prelude.Int.{ℤ, pos, ◌+ℤ◌, pattern32}
use picocalc_ubuntu_kernel.Platform.{Ret, value, failure, einval}

abbrev pub pwm_ticks : ℕ
pwm_ticks = 2048

abbrev pub default_pwm_period : ℕ
default_pwm_period = 20480

-- PWM_TICK_NS
abbrev pub pwm_tick_ns : ℕ
pwm_tick_ns = default_pwm_period / pwm_ticks

abbrev pub default_period : ℕ
default_period = 45351

-- What the driver reads of the substream's runtime.
pub record Stream : Type 0 where
  pub dma_area : ℕ → ℤ
  pub buffer_size : ℕ
  pub period_size : ℕ

-- The calls of the kernel: pwm_config with its duty and its period, pwm_enable, hrtimer_start with its
-- period, and snd_pcm_period_elapsed.
pub data Call : Type 0 where
  pwm_config : ℕ → ℕ → Call
  pwm_enable : Call
  hrtimer_start : ℕ → Call
  period_elapsed : Call

-- struct picocalc_snd_dev; `calls` has the newest first.
pub record SndDev : Type 0 where
  pub data_ptr : ℕ
  pub period_ptr : ℕ
  pub is_on : Bool
  pub duty_cycle_ns : ℕ
  pub period_ns : ℕ
  pub calls : List Call

abbrev pub call : Call → SndDev → SndDev
call c s = record s { calls = c ∷ s.calls }

abbrev pub next32 : ℕ → ℕ
next32 a = (a + 1) % 2 ^ 32

-- The duty of a sample in nanoseconds, of 11 bits.
unfoldable pub duty_ns : ℤ → ℕ
duty_ns sample =
    let v = pattern32 (sample +ℤ pos 32768) / 32 in
    (if ltb (pwm_ticks - 1) v then pwm_ticks - 1 else v) * pwm_tick_ns

-- The callback: whether the timer runs again.
unfoldable pub cb1 : Stream → SndDev → Bool × SndDev
cb1 rt s =
    let duty = duty_ns (rt.dma_area s.data_ptr) in
    let next = next32 s.data_ptr in
    let period = next32 s.period_ptr in
    let ended = leb rt.period_size period in
    let s1 = call (pwm_config duty default_pwm_period) (record s { duty_cycle_ns = duty }) in
    let s2 : SndDev = record s1 {
      data_ptr = if leb rt.buffer_size next then 0 else next;
      period_ptr = if ended then 0 else period;
    } in
    if not s.is_on then (false, s) else (true, if ended then call period_elapsed s2 else s2)

unfoldable pub picocalc_pwm_enable : SndDev → ℕ × SndDev
picocalc_pwm_enable s = (
  0,
  call (hrtimer_start s.period_ns)
      (call pwm_enable (call (pwm_config s.duty_cycle_ns default_pwm_period) s)),
)

unfoldable pub picocalc_pwm_disable : SndDev → SndDev
picocalc_pwm_disable s = call (pwm_config 0 default_pwm_period) s

pub data Trigger : Type 0 where
  sndrv_start sndrv_stop sndrv_other : Trigger

unfoldable pub picocalc_pcm_trigger : Stream → Trigger → SndDev → Ret ℕ × SndDev
unfolding picocalc_pwm_enable
picocalc_pcm_trigger rt sndrv_start s =
    let (rc, s1) =
      picocalc_pwm_enable
        (record s { duty_cycle_ns = duty_ns (rt.dma_area 0); data_ptr = 0; period_ptr = 0 }) in
    if rc == 0 then (value 0, record s1 { is_on = true }) else (failure 5, s1)
picocalc_pcm_trigger rt sndrv_stop s =
    (value 0, if not s.is_on then s else record s { is_on = false; duty_cycle_ns = 0 })
picocalc_pcm_trigger rt sndrv_other s = (failure einval, s)

unfoldable pub picocalc_pcm_pointer : SndDev → ℕ
picocalc_pcm_pointer s = s.data_ptr

-- What the probe sets before it registers the card.
abbrev pub snd_probed : SndDev
snd_probed = record {
  data_ptr = 0;
  period_ptr = 0;
  is_on = false;
  duty_cycle_ns = 0;
  period_ns = default_period;
  calls = [];
}

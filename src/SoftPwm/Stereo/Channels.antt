-- ===== src/SoftPwm/Stereo/Channels.antt =====
-- Each channel of the STEREO variant against the variant with one timer.
use picocalc_ubuntu_kernel.Prelude.{◌∷◌, [], List, ◌∙◌, refl}
use picocalc_ubuntu_kernel.Prelude.{List, ℕ, [], ◌≡◌, arith, ◌∙◌, ap}
use picocalc_ubuntu_kernel.SoftPwm.{Mcu, timer_isr, main_round}
use picocalc_ubuntu_kernel.SoftPwm.Stereo.{Stereo, left_timer_isr, right_timer_isr, stereo_round}

-- An interrupt with the duty that it reads, or a round of the loop.
pub data MonoStep : Type 0 where
  isr : ℕ → MonoStep
  look : ℕ → MonoStep

pub data StereoStep : Type 0 where
  left_isr right_isr : ℕ → StereoStep
  looks : ℕ → ℕ → StereoStep

unfoldable pub mono_run : List MonoStep → Mcu → Mcu
mono_run [] m = m
mono_run (isr duty ∷ es) m = mono_run es (timer_isr duty m)
mono_run (look duty ∷ es) m = mono_run es (main_round duty m)

unfoldable pub stereo_run : List StereoStep → Stereo → Stereo
stereo_run [] m = m
stereo_run (left_isr duty ∷ es) m = stereo_run es (left_timer_isr duty m)
stereo_run (right_isr duty ∷ es) m = stereo_run es (right_timer_isr duty m)
stereo_run (looks l r ∷ es) m = stereo_run es (stereo_round l r m)

abbrev pub left_channel : Stereo → Mcu
left_channel m = record {
  enable = m.left_enable;
  flag = m.left_flag;
  level = m.left_level;
  count = m.left_count;
  running = m.left_running;
}

abbrev pub right_channel : Stereo → Mcu
right_channel m = record {
  enable = m.right_enable;
  flag = m.right_flag;
  level = m.right_level;
  count = m.right_count;
  running = m.right_running;
}

-- The steps that a channel takes part in.
unfoldable pub left_steps : List StereoStep → List MonoStep
left_steps [] = []
left_steps (left_isr duty ∷ es) = isr duty ∷ left_steps es
left_steps (right_isr duty ∷ es) = left_steps es
left_steps (looks l r ∷ es) = look l ∷ left_steps es

unfoldable pub right_steps : List StereoStep → List MonoStep
right_steps [] = []
right_steps (left_isr duty ∷ es) = right_steps es
right_steps (right_isr duty ∷ es) = isr duty ∷ right_steps es
right_steps (looks l r ∷ es) = look r ∷ right_steps es

one_step :
    (duty r : ℕ) (m : Stereo)
    → (left_channel (left_timer_isr duty m) ≡ timer_isr duty (left_channel m))
      × (right_channel (left_timer_isr duty m) ≡ right_channel m)
      × (left_channel (right_timer_isr duty m) ≡ left_channel m)
      × (right_channel (right_timer_isr duty m) ≡ timer_isr duty (right_channel m))
      × (left_channel (stereo_round duty r m) ≡ main_round duty (left_channel m))
      × (right_channel (stereo_round duty r m) ≡ main_round r (right_channel m))
unfolding left_timer_isr right_timer_isr stereo_round timer_isr main_round
one_step duty r m = ground arith

-- In any run of the two interrupts and the loop, in any order and with any duties, each channel goes
-- through the states of the variant with one timer on the steps that are the channel's own.
pub channels_apart :
    (es : List StereoStep) (m : Stereo)
    → (left_channel (stereo_run es m) ≡ mono_run (left_steps es) (left_channel m))
      × (right_channel (stereo_run es m) ≡ mono_run (right_steps es) (right_channel m))
unfolding stereo_run mono_run left_steps right_steps
channels_apart [] m = (refl, refl)
channels_apart (left_isr duty ∷ es) m =
    let (l, r) = channels_apart es (left_timer_isr duty m) in
    let (own, other, _, _, _, _) = one_step duty 0 m in
    (l ∙ ap (mono_run (left_steps es)) own, r ∙ ap (mono_run (right_steps es)) other)
channels_apart (right_isr duty ∷ es) m =
    let (l, r) = channels_apart es (right_timer_isr duty m) in
    let (_, _, other, own, _, _) = one_step duty 0 m in
    (l ∙ ap (mono_run (left_steps es)) other, r ∙ ap (mono_run (right_steps es)) own)
channels_apart (looks a b ∷ es) m =
    let (l, r) = channels_apart es (stereo_round a b m) in
    let (_, _, _, _, left, right) = one_step a b m in
    (l ∙ ap (mono_run (left_steps es)) left, r ∙ ap (mono_run (right_steps es)) right)

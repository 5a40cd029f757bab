-- ===== src/HwPwm/Examples.antt =====
-- The sound driver on concrete samples.
use picocalc_ubuntu_kernel.HwPwm.Playback.{
  runs, channel, Playing, samples_in_order, stop_leaves_level,
}
use picocalc_ubuntu_kernel.HwPwm.{
  Stream, picocalc_pcm_trigger, pos, snd_probed, sndrv_start, sndrv_stop, ℕ, cb1, duty_ns, false,
}
use picocalc_ubuntu_kernel.Prelude.{some, ◌*◌, ◌≡◌, ◌+◌, arith}

abbrev tune : Stream
tune = record { dma_area = λ i. pos (100 * i); buffer_size = 4; period_size = 2 }

samples_in_order_example :
    let t = runs tune 6 (picocalc_pcm_trigger tune sndrv_start snd_probed).1 in
    Playing tune t
    × ((laps : ℕ) × (laps * 4 + t.data_ptr ≡ 6))
    × (channel (cb1 tune t).1.calls ≡ some (duty_ns (tune.dma_area t.data_ptr)))
    × ((cb1 tune t).1.duty_cycle_ns ≡ duty_ns (tune.dma_area t.data_ptr))
samples_in_order_example = samples_in_order tune (ground arith) 6 snd_probed (ground arith)

stop_leaves_level_example :
    let t = runs tune 6 (picocalc_pcm_trigger tune sndrv_start snd_probed).1 in
    let s' = (picocalc_pcm_trigger tune sndrv_stop (cb1 tune t).1).1 in
    (channel (runs tune 3 s').calls ≡ some (duty_ns (tune.dma_area t.data_ptr)))
    × (s'.duty_cycle_ns ≡ 0)
    × (runs tune 3 s' ≡ s')
    × ((cb1 tune s').0 ≡ false)
stop_leaves_level_example = stop_leaves_level tune (ground arith) 6 3 snd_probed (ground arith)

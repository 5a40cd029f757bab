-- ===== src/Kbd/Examples.antt =====
-- Runs of the keyboard driver on a toy controller, whose registers all read as level 100, and the
-- theorems at concrete inputs.
mod Settings
use picocalc_ubuntu_kernel.Kbd.Worker.Bounds.{fifo_in_bounds}
use picocalc_ubuntu_kernel.Kbd.Worker.{input_fw_read_fifo, kbd_fifo_size}
use picocalc_ubuntu_kernel.Kbd.Dispatch.Pairing.{press_release_paired}
use picocalc_ubuntu_kernel.Kbd.Tables.{phys_to_base_keycode, first_match}
use picocalc_ubuntu_kernel.Kbd.Probe.Lifecycle.{zeroed-Inv}
use picocalc_ubuntu_kernel.Kbd.Dispatch.Release.{no_key_stuck, AllUp, held_by}
use picocalc_ubuntu_kernel.Kbd.Dispatch.Repeat.{repeated_press_ignored}
use picocalc_ubuntu_kernel.Kbd.Dispatch.Preserve.{key_dispatch-Inv}
use picocalc_ubuntu_kernel.Kbd.Probe.{new_ctx}
use picocalc_ubuntu_kernel.Kbd.Phys.{pk_a, pk_none, pk_lshift, pk_b}
use picocalc_ubuntu_kernel.Kbd.Dispatch.Invariant.{Inv}
use picocalc_ubuntu_kernel.Kbd.Dispatch.Frame.{IsOrdinary, other_keys_kept}
use picocalc_ubuntu_kernel.Kbd.Dispatch.{
  key_dispatch, run_events, key_state_pressed, run_dispatch, key_state_released,
}
use picocalc_ubuntu_kernel.Kbd.Context.{World, stamp}
use picocalc_ubuntu_kernel.Input.{is_down, key_a, Effect, Keycode-discrete, reserved, report_key}
use picocalc_ubuntu_kernel.Prelude.{
  refl, List, ℕ, ◌*◌, ◌+◌, suc, ◌∷◌, ◌≡◌, [], false, inl, inr, arith, true, ◌≤◌, ◌≢◌,
}
use picocalc_ubuntu_kernel.Platform.{Platform, value}

abbrev pub toy : Platform ℕ
toy = record {
  read_byte = λ d r. (value 100, d);
  read_word = λ d r. (value (100 * 256 + r), d);
  write_byte = λ d r v. (value 0, suc d);
  ktime = λ d. (5000000, d);
}

abbrev pub start : World ℕ
start = record { ctx = new_ctx 0; dev = 100; out = [] }

abbrev typed : List (ℕ × ℕ)
typed = (pk_a, 1) ∷ (pk_lshift, 1) ∷ (pk_a, 2) ∷ (pk_lshift, 3) ∷ (pk_a, 3) ∷ []

pk_a-IsOrdinary : IsOrdinary pk_a
pk_a-IsOrdinary = ground arith

start-Inv : Inv start
start-Inv = zeroed-Inv toy 0 100

start_idle : (start.ctx.key_state pk_a).keycode ≡ reserved
unfolding new_ctx
start_idle = refl

start_up : AllUp start
unfolding new_ctx
start_up = record { slots = λ q. refl; shl = refl; shr = refl; alt = refl; ctrl = refl }

typed_released : (q : ℕ) → pk_none ≢ q → held_by typed (λ r. false) q ≡ false
unfolding held_by
typed_released q some_key = ground arith

no_key_stuck_example : is_down key_a (run_events toy typed start).out ≡ false
no_key_stuck_example =
    no_key_stuck toy typed start key_a start-Inv start_up
      (inl refl, (inl refl, (inr (inl refl), (inr (inr refl), (inr (inr refl), tt)))))
      typed_released (ground arith) (ground arith)

key_dispatch-Inv_example : Inv (key_dispatch toy pk_a key_state_pressed start)
key_dispatch-Inv_example = key_dispatch-Inv toy pk_a key_state_pressed start (inl refl) start-Inv

other_keys_kept_example :
    (key_dispatch toy pk_a key_state_pressed start).ctx.key_state pk_b ≡ start.ctx.key_state pk_b
other_keys_kept_example = other_keys_kept toy pk_a key_state_pressed pk_b start (ground arith)

abbrev others : List (ℕ × ℕ)
others = (pk_lshift, 1) ∷ (pk_b, 1) ∷ (pk_b, 3) ∷ []

pressed_code : ((key_dispatch toy pk_a key_state_pressed start).ctx.key_state pk_a).keycode ≡ key_a
unfolding run_dispatch stamp new_ctx Keycode-discrete phys_to_base_keycode first_match
pressed_code = refl

press_release_paired_example :
    let w1 = key_dispatch toy pk_a key_state_pressed start in
    let w2 = run_events toy others w1 in
    ((rest : List Effect) × (w1.out ≡ report_key key_a true ∷ rest))
    × ((key_dispatch toy pk_a key_state_released w2).out ≡ report_key key_a false ∷ w2.out)
press_release_paired_example =
    press_release_paired toy pk_a others start key_a pk_a-IsOrdinary start_idle
      (ground arith, (ground arith, (ground arith, tt))) pressed_code (ground arith)

fifo_in_bounds_example :
    let w' = input_fw_read_fifo toy start in
    (w'.ctx.key_fifo_count ≤ kbd_fifo_size)
    × (w'.out ≡ start.out)
    × (w'.ctx.key_state ≡ start.ctx.key_state)
    × ((j : ℕ) → kbd_fifo_size ≤ j → w'.ctx.key_fifo_data j ≡ start.ctx.key_fifo_data j)
fifo_in_bounds_example = fifo_in_bounds toy start

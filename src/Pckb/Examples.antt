-- ===== src/Pckb/Examples.antt =====
-- The in-tree keyboard driver at concrete inputs.
use picocalc_ubuntu_kernel.Pckb.Tracking.{page_up_stuck, events_tracked, run_pckb, last_event}
use picocalc_ubuntu_kernel.Pckb.{Pckb, pckb_event, pckb_pressed, [], pckb_released, false}
use picocalc_ubuntu_kernel.Input.{is_down, key_a, key_pageup}
use picocalc_ubuntu_kernel.Prelude.{refl, List, ◌∷◌, ℕ, true, ◌*◌, ◌+◌, ◌≡◌, arith}
use picocalc_ubuntu_kernel.Platform.{Platform, value}

-- A controller that reports a press of `a`.
abbrev polled : Platform ℕ
polled = record {
  read_byte = λ d r. (value 0, d);
  read_word = λ d r. (value (97 * 256 + 1), d);
  write_byte = λ d r v. (value 0, d);
  ktime = λ d. (0, d);
}

abbrev shifted : Pckb ℕ
shifted = record { page_key = true; interval = 20; dev = 0; out = [] }

abbrev typed : List (ℕ × ℕ)
typed = (1, 0xa2) ∷ (1, 97) ∷ (2, 97) ∷ (3, 0xa2) ∷ (3, 97) ∷ (1, 98) ∷ []

events_tracked_example :
    is_down key_a (run_pckb typed shifted).out ≡ last_event key_a typed (is_down key_a shifted.out)
events_tracked_example = events_tracked typed shifted key_a (
  (ground arith, ground arith),
  (
    (ground arith, ground arith),
    (
      (ground arith, ground arith),
      (
        (ground arith, ground arith),
        ((ground arith, ground arith), ((ground arith, ground arith), tt)),
      ),
    ),
  ),
)

page_up_stuck_example :
    let s1 = pckb_event pckb_pressed 0xb5 shifted in
    let s2 = pckb_event pckb_released 0xa2 s1 in
    let s3 = pckb_event pckb_released 0xb5 s2 in
    (is_down key_pageup s3.out ≡ true) × (s3.page_key ≡ false)
page_up_stuck_example = page_up_stuck shifted 0xa2 refl refl

-- ===== src/Fw/Loop/Watchdog.antt =====
-- The watchdog of the I2C bus over runs of the main loop, with messages between the rounds.
use picocalc_ubuntu_kernel.Fw.State.{Firmware}
use picocalc_ubuntu_kernel.Fw.Keys.{sub32}
use picocalc_ubuntu_kernel.Fw.Loop.{
  LoopRound, Watch, loop_round, receive_watched, request_watched, resets_board,
}
use picocalc_ubuntu_kernel.Prelude.{false, List, [], ◌∷◌, ℕ, ◌≤◌, ◌≡◌}

-- A message of one byte or more, its answer, and the round of the main loop behind them, with the times
-- of the message and of the answer.
pub record Polled : Type 0 where
  pub received_at : ℕ
  pub first_byte : ℕ
  pub bytes : List ℕ
  pub requested_at : ℕ
  pub round : LoopRound

-- The message does not reset the processor, and the watchdog's readings of the clock come 2500 ms behind
-- the message and the answer, at most.
pub record InTime (stack : ℕ × ℕ) (m : Polled) : Type 0 where
  pub running : resets_board stack (m.first_byte ∷ m.bytes) ≡ false
  pub receive : sub32 m.round.receive_now m.received_at ≤ 2500
  pub request : sub32 m.round.request_now m.requested_at ≤ 2500

module _ (stack : ℕ × ℕ) where
  unfoldable pub polled_round : Polled → Firmware × Watch → Firmware × Watch
  polled_round m x =
      loop_round m.round
        (request_watched m.requested_at
          (receive_watched m.received_at stack (m.first_byte ∷ m.bytes) x)).1

  unfoldable pub polled_rounds : List Polled → Firmware × Watch → Firmware × Watch
  unfolding polled_round
  polled_rounds [] x = x
  polled_rounds (m ∷ ms) x = polled_rounds ms (polled_round m x)

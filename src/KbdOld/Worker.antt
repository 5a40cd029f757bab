-- ===== src/KbdOld/Worker.antt =====
-- input_fw_read_fifo and input_workqueue_handler of picocalc_kbd.c for the v1.2 firmware.
use picocalc_ubuntu_kernel.Prelude.{
  Bool, if◌then◌else◌, ℕ, ◌+◌, leb, suc, ◌%◌, ◌^◌, update, zero, ◌*◌, ◌-◌, ◌==◌,
}
use picocalc_ubuntu_kernel.Prelude.{true, false, ◌==◌}
use picocalc_ubuntu_kernel.Prelude.Int.{ℤ, pos, sub_ℕ}
use picocalc_ubuntu_kernel.Input.{Axis, rel_x, rel_y, report_rel, input_sync}
use picocalc_ubuntu_kernel.Platform.{Platform, value, failure}
use picocalc_ubuntu_kernel.KbdOld.Context.{FifoItem, World, emit, on_ctx, kbd_read_i2c_2u8}
use picocalc_ubuntu_kernel.KbdOld.Report.{key_report_event}

abbrev pub reg_id_fif : ℕ
reg_id_fif = 0x09

abbrev pub kbd_fifo_size : ℕ
kbd_fifo_size = 31

abbrev pub mouse_fast_move_thr_time : ℕ
mouse_fast_move_thr_time = 150000000

-- The step, by the time since the last key.
unfoldable pub move_step : ℕ → ℕ
move_step press_time =
    if leb press_time mouse_fast_move_thr_time
    then 0
    else if leb press_time (2 * mouse_fast_move_thr_time)
    then 1
    else if leb press_time (6 * mouse_fast_move_thr_time)
    then 2
    else 4

module _ {D : Type 0} where
  -- `if (flag) input_report_rel(...);`
  abbrev pub rel_if : Bool → Axis → ℤ → World D → World D
  rel_if flag axis d w = if flag then emit (report_rel axis d) w else w

module _ {D : Type 0} (p : Platform D) where
  unfoldable pub store_item : ℕ → ℕ × ℕ → World D → World D
  store_item i (state, scancode) w =
      let item : FifoItem = record { state = state % 16; scancode = scancode } in
      on_ctx
        (λ c. record c {
          key_fifo_data = update c.key_fifo_data i item;
          key_fifo_count = suc c.key_fifo_count;
        })
        w

  -- The loop, with `n` rounds left at index `i`: it ends on a failed read or on a state 0.
  unfoldable pub read_items : ℕ → ℕ → World D → World D
  unfolding kbd_read_i2c_2u8 store_item
  read_items zero i w = w
  read_items (suc n) i w =
      let (r, w') = kbd_read_i2c_2u8 p reg_id_fif w in
      elim r [
        | failure e ↦ w'
        | value b ↦ elim (b.0 == 0) [ true ↦ w' | false ↦ read_items n (suc i) (store_item i b w') ]
      ]

  unfoldable pub input_fw_read_fifo : World D → World D
  unfolding read_items
  input_fw_read_fifo w =
      read_items kbd_fifo_size 0 (on_ctx (λ c. record c { key_fifo_count = 0 }) w)

  -- The loop over the `n` entries left, from index `i`.
  unfoldable pub report_items : ℕ → ℕ → World D → World D
  unfolding key_report_event
  report_items zero i w = w
  report_items (suc n) i w = report_items n (suc i) (key_report_event p (w.ctx.key_fifo_data i) w)

  -- The movement of the mouse mode. The difference of the two u64 readings wraps around.
  unfoldable pub move_mouse : World D → World D
  unfolding move_step
  move_mouse w =
      let (now, d) = p.ktime w.dev in
      let press_time = (now + 2 ^ 64 - w.ctx.last_keypress_at) % 2 ^ 64 in
      let step = move_step press_time in
      let m = w.ctx.mouse_move_dir in
      let w1 = rel_if m.left rel_x (sub_ℕ 0 step) (record w { dev = d; mouse_move_step = step }) in
      let w2 = rel_if m.down rel_y (pos step) (rel_if m.right rel_x (pos step) w1) in
      rel_if m.up rel_y (sub_ℕ 0 step) w2

  unfoldable pub input_workqueue_handler : World D → World D
  unfolding input_fw_read_fifo report_items move_mouse
  input_workqueue_handler w =
      let w1 = input_fw_read_fifo w in
      let w2 = report_items w1.ctx.key_fifo_count 0 w1 in
      let w3 = if w2.ctx.mouse_mode then move_mouse w2 else w2 in
      emit input_sync (on_ctx (λ c. record c { key_fifo_count = 0 }) w3)

-- ===== src/Kbd/Worker.antt =====
-- input_fw_read_fifo and input_workqueue_handler of picocalc_kbd.c.
pub mod Bounds
pub mod Order
use picocalc_ubuntu_kernel.Prelude.{true, false, ℕ, zero, suc, ◌%◌, ◌==◌, update}
use picocalc_ubuntu_kernel.Input.{input_sync}
use picocalc_ubuntu_kernel.Platform.{Platform, value, failure}
use picocalc_ubuntu_kernel.Kbd.Tables.{scancode_to_phys}
use picocalc_ubuntu_kernel.Kbd.Context.{FifoItem, World, emit, on_ctx, kbd_read_i2c_2u8}
use picocalc_ubuntu_kernel.Kbd.Dispatch.{key_dispatch}

abbrev pub reg_id_fif : ℕ
reg_id_fif = 0x09

abbrev pub kbd_fifo_size : ℕ
kbd_fifo_size = 31

module _ {D : Type 0} (p : Platform D) where
  -- One entry is stored and counted.
  unfoldable pub store_item : ℕ → ℕ × ℕ → World D → World D
  store_item i (state, scancode) w =
      let item : FifoItem = record { state = state % 16; scancode = scancode } in
      on_ctx
        (λ c. record c {
          key_fifo_data = update c.key_fifo_data i item;
          key_fifo_count = suc c.key_fifo_count;
        })
        w

  -- The loop, with `n` rounds left at index `i`: it ends on a failed read or on a state 0.
  unfoldable pub read_items : ℕ → ℕ → World D → World D
  unfolding kbd_read_i2c_2u8 store_item
  read_items zero i w = w
  read_items (suc n) i w =
      let (r, w') = kbd_read_i2c_2u8 p reg_id_fif w in
      elim r [
        | failure e ↦ w'
        | value b ↦ elim (b.0 == 0) [ true ↦ w' | false ↦ read_items n (suc i) (store_item i b w') ]
      ]

  unfoldable pub input_fw_read_fifo : World D → World D
  unfolding read_items
  input_fw_read_fifo w =
      read_items kbd_fifo_size 0 (on_ctx (λ c. record c { key_fifo_count = 0 }) w)

  unfoldable pub dispatch_item : FifoItem → World D → World D
  dispatch_item ev w = key_dispatch p (scancode_to_phys ev.scancode) ev.state w

  -- The loop over the `n` entries left, from index `i`.
  unfoldable pub dispatch_items : ℕ → ℕ → World D → World D
  unfolding dispatch_item
  dispatch_items zero i w = w
  dispatch_items (suc n) i w = dispatch_items n (suc i) (dispatch_item (w.ctx.key_fifo_data i) w)

  unfoldable pub input_workqueue_handler : World D → World D
  unfolding input_fw_read_fifo dispatch_items
  input_workqueue_handler w =
      let w1 = input_fw_read_fifo w in
      let w2 = dispatch_items w1.ctx.key_fifo_count 0 w1 in
      emit input_sync (on_ctx (λ c. record c { key_fifo_count = 0 }) w2)

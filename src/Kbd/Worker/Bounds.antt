-- ===== src/Kbd/Worker/Bounds.antt =====
-- The reading of the controller's FIFO stays inside the driver's array: `key_fifo_data` is the array of
-- KBD_FIFO_SIZE entries up to index 30, and from index 31 on the memory behind it.
use picocalc_ubuntu_kernel.Kbd.Context.{World, kbd_read_i2c_2u8, on_ctx}
use picocalc_ubuntu_kernel.Kbd.Worker.{
  input_fw_read_fifo, read_items, store_item, kbd_fifo_size, suc, reg_id_fif,
}
use picocalc_ubuntu_kernel.Platform.{Platform, Ret-cases}
use picocalc_ubuntu_kernel.Prelude.{
  zero, suc, inl, inr, refl, ℕ, ◌≤◌, ◌+◌, ◌≡◌, arith, Bool-cases, ◌%◌, ◌==◌, ap, ◌∙◌,
}

module _ {D : Type 0} (p : Platform D) where
  -- Reading changes neither the reports nor the keys, counts no more than the rounds it had left and
  -- stores nothing behind them.
  record Read (n i : ℕ) (w w' : World D) : Type 0 where
    most : w'.ctx.key_fifo_count ≤ i + n
    least : i ≤ w'.ctx.key_fifo_count
    reports : w'.out ≡ w.out
    keys : w'.ctx.key_state ≡ w.ctx.key_state
    behind : (j : ℕ) → i + n ≤ j → w'.ctx.key_fifo_data j ≡ w.ctx.key_fifo_data j

  Read-stored :
      (n i : ℕ) (w w1 w' : World D)
      → w1.out ≡ w.out
      → w1.ctx.key_state ≡ w.ctx.key_state
      → ((j : ℕ) → suc i ≤ j → w1.ctx.key_fifo_data j ≡ w.ctx.key_fifo_data j)
      → Read n (suc i) w1 w'
      → Read (suc n) i w w'
  Read-stored n i w w1 w' out keys kept r = record {
    most = ground (arith, r.most);
    least = ground (arith, r.least);
    reports = r.reports ∙ out;
    keys = r.keys ∙ keys;
    behind = λ j h. r.behind j (omega (arith, h)) ∙ kept j (omega (arith, h));
  }

  read_items-Read :
      (n i : ℕ) (w : World D) → w.ctx.key_fifo_count ≡ i → Read n i w (read_items p n i w)
  unfolding read_items kbd_read_i2c_2u8 store_item
  read_items-Read zero i w e = ground arith
  read_items-Read (suc n) i w e = elim (Ret-cases (p.read_word w.dev reg_id_fif).0) [
    | inr (err, f) ↦ rw (read_items, f) (ground arith)
    | inl (v, f) ↦
        rw (read_items, f)
          (elim (Bool-cases (v % 256 == 0)) [
            | inl idle ↦ rw idle (ground arith)
            | inr some_key ↦ rw some_key (
                Read-stored n i w _ _ refl refl (λ j h. ground (arith, h))
                  (read_items-Read n (suc i) _ (ap suc e)))
          ])
  ]

  -- Whatever the controller answers and however long its own FIFO is, reading the FIFO counts at most 31
  -- entries, the length of the array, writes nothing from index 31 on, reports nothing and changes no
  -- key's slot.
  pub fifo_in_bounds :
      (w : World D)
      → let w' = input_fw_read_fifo p w in
        (w'.ctx.key_fifo_count ≤ kbd_fifo_size)
        × (w'.out ≡ w.out)
        × (w'.ctx.key_state ≡ w.ctx.key_state)
        × ((j : ℕ) → kbd_fifo_size ≤ j → w'.ctx.key_fifo_data j ≡ w.ctx.key_fifo_data j)
  unfolding input_fw_read_fifo
  fifo_in_bounds w =
      let r =
        read_items-Read kbd_fifo_size 0 (on_ctx (λ c. record c { key_fifo_count = 0 }) w) refl in
      (r.most, r.reports, r.keys, r.behind)

-- ===== src/Fw/Fifo.antt =====
-- fifo.ino: the ring of key events between the scan of the keys and the I2C interrupt. An `uint8_t`
-- counter wraps modulo 256.
pub mod Queue
pub mod Refine
use picocalc_ubuntu_kernel.Prelude.{
  zero, suc, refl, Bool, if◌then◌else◌, ℕ, leb, update, ◌+◌, ◌==◌, false, ◌%◌, true,
}

abbrev pub fifo_size : ℕ
fifo_size = 31

-- struct fifo_item; both members are bytes on the wire.
pub record KeyItem : Type 0 where
  pub key : ℕ
  pub key_state : ℕ

abbrev pub no_item : KeyItem
no_item = record { key = 0; key_state = 0 }

pub record Fifo : Type 0 where
  pub fifo : ℕ → KeyItem
  pub count : ℕ
  pub read_idx : ℕ
  pub write_idx : ℕ

-- `idx++; idx %= FIFO_SIZE;`
abbrev pub advance : ℕ → ℕ
advance i = (i + 1) % 256 % fifo_size

unfoldable pub fifo_count : Fifo → ℕ
fifo_count f = f.count

unfoldable pub fifo_flush : Fifo → Fifo
fifo_flush f = record f { write_idx = 0; read_idx = 0; count = 0 }

unfoldable pub fifo_enqueue : KeyItem → Fifo → Bool × Fifo
fifo_enqueue item f = if leb fifo_size f.count then (false, f) else (
  true,
  record f {
    fifo = update f.fifo f.write_idx item;
    write_idx = advance f.write_idx;
    count = (f.count + 1) % 256;
  },
)

unfoldable pub fifo_enqueue_force : KeyItem → Fifo → Fifo
fifo_enqueue_force item f =
    let (done, f') = fifo_enqueue item f in
    if done then f' else record f' {
      fifo = update f'.fifo f'.write_idx item;
      write_idx = advance f'.write_idx;
      read_idx = advance f'.read_idx;
    }

unfoldable pub fifo_dequeue : Fifo → KeyItem × Fifo
fifo_dequeue f = if f.count == 0 then (no_item, f) else (
  f.fifo f.read_idx,
  record f { read_idx = advance f.read_idx; count = (f.count + 255) % 256 },
)

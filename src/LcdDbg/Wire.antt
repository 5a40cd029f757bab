-- ===== src/LcdDbg/Wire.antt =====
-- What lcd_write puts on the wires.
use picocalc_ubuntu_kernel.LcdDbg.{
  Spi, Signal, lcd_write, ℕ, Dbg, bus_unlock, false, write_data, ◌∷◌, none, transfer, true, dc,
  bus_lock, msleep, einval,
}
use picocalc_ubuntu_kernel.Prelude.{
  Bool, List, ◌≡◌, arith, [], if◌then◌else◌, ◌++◌, Option, some, ◌⊎◌, inl, inr, Bool-cases, refl,
  Option-cases,
}

-- The state of the bus's lock (true: held) behind a signal; none when the bus is taken twice, given up
-- without being held, or used without being held.
unfoldable pub on_bus : Signal → Option Bool → Option Bool
on_bus bus_lock (some false) = some true
on_bus bus_unlock (some true) = some false
on_bus (dc level) (some true) = some true
on_bus (transfer bytes) (some true) = some true
on_bus (msleep ms) (some held) = some held
on_bus _ _ = none

-- Behind the signals, the newest first.
unfoldable pub bus_state : List Signal → Option Bool
unfolding on_bus
bus_state [] = some false
bus_state (x ∷ rest) = on_bus x (bus_state rest)

-- The signals of a command and its data, the newest first.
unfoldable pub wire : Bool → ℕ → List ℕ → List Signal
wire valid command [] =
    bus_unlock
    ∷ transfer (command ∷ [])
    ∷ (if valid then dc false ∷ bus_lock ∷ [] else bus_lock ∷ [])
wire valid command (b ∷ bs) =
    bus_unlock
    ∷ transfer (b ∷ bs)
    ∷ (if valid
        then dc true ∷ transfer (command ∷ []) ∷ dc false ∷ bus_lock ∷ []
        else transfer (command ∷ []) ∷ bus_lock ∷ [])

module _ {D : Type 0} (spi : Spi D) where
  -- A write that gets past the guards: the lock, the DC line where it is known, the command's transfer,
  -- what follows, and the unlock.
  pub record Sent (command : ℕ) (w w' : Dbg D) : Type 0 where
    pub more : List Signal
    pub order :
        w'.signals
        ≡ bus_unlock
          ∷ (more
              ++ transfer (command ∷ [])
                ∷ (if w.g_dc_gpio then dc false ∷ bus_lock ∷ w.signals else bus_lock ∷ w.signals))
    pub free : bus_state w'.signals ≡ some false

  -- The signals of the data bytes.
  data_signals : Bool → List ℕ → List Signal
  data_signals valid [] = []
  data_signals valid (b ∷ bs) =
      if valid then transfer (b ∷ bs) ∷ dc true ∷ [] else transfer (b ∷ bs) ∷ []

  lcd_write-Sent :
      (command : ℕ) (args : List ℕ) (w : Dbg D)
      → w.g_spi ≡ true
      → bus_state w.signals ≡ some false
      → Sent command w (lcd_write spi (command ∷ args) w).1
  unfolding lcd_write write_data bus_state on_bus data_signals
  lcd_write-Sent command [] w there free = record {
    more = [];
    order = ground (arith, there);
    free = ground (arith, there, free);
  }
  lcd_write-Sent command (b ∷ bs) w there free =
      elim (Option-cases (spi.sync w.dev (command ∷ [])).0) [
        | inl ok ↦ record {
          more = data_signals w.g_dc_gpio (b ∷ bs);
          order = ground (arith, there, ok);
          free = ground (arith, there, ok, free);
        }
        | inr (e, bad) ↦ record {
          more = [];
          order = ground (arith, there, bad);
          free = ground (arith, there, bad, free);
        }
      ]

  -- With the bus free before. A write without a device, or without a byte, answers -EINVAL and does nothing at all. Any other
  -- write, whatever the transfers answer, takes the free bus, sends the command, and gives the bus up at
  -- the end; the bus is never taken twice, never given up unless it is held, and neither the DC line is
  -- set nor a byte sent without it.
  pub lcd_write_unlocks :
      (bytes : List ℕ) (w : Dbg D)
      → bus_state w.signals ≡ some false
      → ((w.g_spi ≡ false) ⊎ (bytes ≡ [])) × (lcd_write spi bytes w ≡ (some einval, w))
        ⊎ ((command : ℕ) × (args : List ℕ) × (w.g_spi ≡ true)
            × (bytes ≡ command ∷ args)
            × Sent command w (lcd_write spi bytes w).1)
  unfolding lcd_write
  lcd_write_unlocks [] w free = inl (inr refl, refl)
  lcd_write_unlocks (c ∷ args) w free = elim (Bool-cases w.g_spi) [
    | inl there ↦ inr (c, args, there, refl, lcd_write-Sent c args w there free)
    | inr gone ↦ inl (inl gone, rw gone refl)
  ]

  pub lcd_write-wire :
      (command : ℕ) (args : List ℕ) (w : Dbg D)
      → ((d : D) (bytes : List ℕ) → (spi.sync d bytes).0 ≡ none)
      → w.g_spi ≡ true
      → let (ret, w') = lcd_write spi (command ∷ args) w in
        (ret ≡ none)
        × (w'.signals ≡ wire w.g_dc_gpio command args ++ w.signals)
        × (w'.g_spi ≡ true)
        × (w'.g_dc_gpio ≡ w.g_dc_gpio)
  unfolding lcd_write write_data wire
  lcd_write-wire command [] w works there = ground (arith, works w.dev (command ∷ []))
  lcd_write-wire command (b ∷ bs) w works there =
      ground (arith, works w.dev (command ∷ []), works (spi.sync w.dev (command ∷ [])).1 (b ∷ bs))

-- ===== src/LcdDbg/Init.antt =====
-- lcd_init_sequence beside ili9488_enable of the panel's driver, and the module's start and end.
use mathlib.Core.List.{append_assoc}
use picocalc_ubuntu_kernel.Prelude.{
  Bool, List, ℕ, false, true, ◌++◌, ◌∷◌, ◌≡◌, [], ap, none, sym, ◌∙◌, some, arith, refl,
}
use picocalc_ubuntu_kernel.LcdDbg.{
  Signal, transfer, dc, bus_lock, bus_unlock, msleep, Spi, Dbg, ili9488_dbg_init, lcd_write,
  ili9488_dbg_exit, Found, Module,
}

-- The level of the DC line after the signals, the newest first.
unfoldable pub dc_level : List Signal → Bool
dc_level [] = false
dc_level (dc level ∷ rest) = level
dc_level (bus_lock ∷ rest) = dc_level rest
dc_level (bus_unlock ∷ rest) = dc_level rest
dc_level (transfer bytes ∷ rest) = dc_level rest
dc_level (msleep ms ∷ rest) = dc_level rest

unfoldable pub marked : Bool → List ℕ → List (Bool × ℕ)
marked level [] = []
marked level (b ∷ bs) = (level, b) ∷ marked level bs

-- What the panel takes from the signals, the oldest first: each byte with the level of the DC line.
unfoldable pub heard : List Signal → List (Bool × ℕ)
unfolding dc_level marked
heard [] = []
heard (transfer bytes ∷ rest) = heard rest ++ marked (dc_level rest) bytes
heard (dc level ∷ rest) = heard rest
heard (bus_lock ∷ rest) = heard rest
heard (bus_unlock ∷ rest) = heard rest
heard (msleep ms ∷ rest) = heard rest

-- A command as the panel is to take it: the command with the line low, its data with the line high.
unfoldable pub as_command : List ℕ → List (Bool × ℕ)
unfolding marked
as_command [] = []
as_command (c ∷ args) = (false, c) ∷ marked true args

unfoldable pub as_commands : List (List ℕ) → List (Bool × ℕ)
unfolding as_command
as_commands [] = []
as_commands (bytes ∷ rest) = as_command bytes ++ as_commands rest

as_commands-append :
    (xs ys : List (List ℕ)) → as_commands (xs ++ ys) ≡ as_commands xs ++ as_commands ys
unfolding as_commands
as_commands-append [] ys = refl
as_commands-append (x ∷ xs) ys =
    ap (λ r. as_command x ++ r) (as_commands-append xs ys)
    ∙ sym (append_assoc (as_command x) (as_commands xs) (as_commands ys))

-- A bus on which every transfer succeeds.
abbrev pub Works : {D : Type 0} → Spi D → Type 0
Works {D = D} spi = (d : D) (bytes : List ℕ) → (spi.sync d bytes).0 ≡ none

module _ {D : Type 0} (spi : Spi D) (works : Works spi) where
  Heard : List ℕ → Dbg D → Type 0
  Heard bytes w =
      let w' = (lcd_write spi bytes w).1 in
      (heard w'.signals ≡ heard w.signals ++ as_command bytes)
      × (w'.g_spi ≡ true)
      × (w'.g_dc_gpio ≡ true)

-- The references to the device are balanced: a start that fails leaves the count as it was and the
-- module without the device, and a start that succeeds followed by the module's end leaves the count
-- as it was.
pub refs_balanced :
    {D : Type 0} (found : Found) (m : Module D)
    → m.dbg.g_spi ≡ false
    → let (ret, m') = ili9488_dbg_init found m in
      ((e : ℕ) → ret ≡ some e → (m'.refs ≡ m.refs) × (m'.dbg.g_spi ≡ false))
      × (ret ≡ none → ((ili9488_dbg_exit m').refs ≡ m.refs) × (m'.dbg.g_spi ≡ true))
unfolding ili9488_dbg_init ili9488_dbg_exit
refs_balanced found m idle = ground (arith, idle)

-- ===== src/LcdDbg.antt =====
-- modules-drivers/ili9488_dbg/ili9488_dbg.c: a sysfs file through which commands are written to the
-- panel. SPI transfers and kstrtou8 are parameters; the result of an `int` function is none for 0, or
-- the error.
pub mod Parse
pub mod Wire
pub mod Print
pub mod Init
mod Examples
use picocalc_ubuntu_kernel.Prelude.{
  Bool, List, Option, false, if◌then◌else◌, ℕ, ◌∷◌, [], none, some, suc, true, ◌-◌, ◌==◌, leb,
  length, ◌&&◌, ◌+◌, ◌||◌, not, ◌++◌, zero,
}
use picocalc_ubuntu_kernel.Platform.{enodev, Ret, value, failure, einval, enomem}

-- What leaves the module: the lock of the bus, the level of the DC line, the transfers, the sleeps.
pub data Signal : Type 0 where
  bus_lock bus_unlock : Signal
  dc : Bool → Signal
  transfer : List ℕ → Signal
  msleep : ℕ → Signal

-- spi_sync_locked
pub record Spi (D : Type 0) : Type 0 where
  pub sync : D → List ℕ → Option ℕ × D

-- g_spi and g_dc_gpio, as whether they are set, beside the machine; `signals` has the newest first.
pub record Dbg (D : Type 0) : Type 0 where
  pub g_spi : Bool
  pub g_dc_gpio : Bool
  pub g_kobj : Bool
  pub dev : D
  pub signals : List Signal

module _ {D : Type 0} where
  abbrev pub signal : Signal → Dbg D → Dbg D
  signal x w = record w { signals = x ∷ w.signals }

  -- `if (gpio_is_valid(g_dc_gpio)) gpio_set_value(g_dc_gpio, level);`
  abbrev pub set_dc : Bool → Dbg D → Dbg D
  set_dc level w = if w.g_dc_gpio then signal (dc level) w else w

-- One byte of text, as kstrtou8 reads it with base 16: up to the terminating 0.
abbrev pub Digits : Type 0
Digits = List ℕ

abbrev pub is_space : ℕ → Bool
is_space c = c == 32 || c == 9 || c == 10 || c == 13

-- The inner loop over white space.
unfoldable pub skip_space : List ℕ → List ℕ
skip_space [] = []
skip_space (c ∷ cs) = let rest = skip_space cs in if is_space c then rest else c ∷ cs

-- `tmp`: the character `c`, and the next one unless it is white space; and the text behind them.
unfoldable pub take_digits : ℕ → List ℕ → Digits × List ℕ
take_digits c [] = (c ∷ [], [])
take_digits c (d ∷ cs) = if is_space d then (c ∷ [], d ∷ cs) else (c ∷ d ∷ [], cs)

module _ (kstrtou8 : Digits → Option ℕ) where
  -- The outer loop, with `n` rounds of fuel: none if they are used up.
  unfoldable pub parse_bytes : ℕ → List ℕ → List ℕ → Option (List ℕ)
  unfolding skip_space take_digits
  parse_bytes zero text bytes = none
  parse_bytes (suc n) text bytes = elim (leb 64 (length bytes)) [
    | true ↦ some bytes
    | false ↦ elim (skip_space text) [
      | [] ↦ some bytes
      | c ∷ cs ↦ elim (kstrtou8 (take_digits c cs).0) [
        | none ↦ some bytes
        | some b ↦ parse_bytes n (take_digits c cs).1 (bytes ++ b ∷ [])
      ]
    ]
  ]

  -- A round takes one character at least.
  unfoldable pub parsed : List ℕ → List ℕ
  unfolding parse_bytes
  parsed text = elim (parse_bytes (suc (length text)) text []) [ none ↦ [] | some bytes ↦ bytes ]

module _ {D : Type 0} (spi : Spi D) where
  abbrev pub sync_locked : List ℕ → Dbg D → Option ℕ × Dbg D
  sync_locked bytes w =
      let (ret, d) = spi.sync w.dev bytes in
      (ret, record w { dev = d; signals = transfer bytes ∷ w.signals })

  -- The data bytes behind a command.
  unfoldable pub write_data : List ℕ → Dbg D → Option ℕ × Dbg D
  write_data [] w = (none, w)
  write_data (b ∷ bs) w = sync_locked (b ∷ bs) (set_dc true w)

  unfoldable pub lcd_write : List ℕ → Dbg D → Option ℕ × Dbg D
  unfolding write_data
  lcd_write [] w = (some einval, w)
  lcd_write (command ∷ args) w =
      let (ret, w1) = sync_locked (command ∷ []) (set_dc false (signal bus_lock w)) in
      let sent : Option ℕ × Dbg D = elim ret [
        | none ↦ write_data args w1
        | some e ↦ (some e, w1)
      ] in
      if w.g_spi then (sent.0, signal bus_unlock sent.1) else (some einval, w)

  unfoldable pub lcd_writes : List (List ℕ) → Dbg D → Dbg D
  unfolding lcd_write
  lcd_writes [] w = w
  lcd_writes (bytes ∷ rest) w = lcd_writes rest (lcd_write bytes w).1

-- The calls of lcd_init_sequence between its first two sleeps.
abbrev pub init_commands : List (List ℕ)
init_commands =
    (0xe0 ∷ 0x00 ∷ 0x03 ∷ 0x09 ∷ 0x08 ∷ 0x16 ∷ 0x0a ∷ 0x3f ∷ 0x78 ∷ 0x4c ∷ 0x09 ∷ 0x0a ∷ 0x08 ∷ 0x16
      ∷ 0x1a ∷ 0x0f ∷ [])
    ∷ (0xe1 ∷ 0x00 ∷ 0x16 ∷ 0x19 ∷ 0x03 ∷ 0x0f ∷ 0x05 ∷ 0x32 ∷ 0x45 ∷ 0x46 ∷ 0x04 ∷ 0x0e ∷ 0x0d
        ∷ 0x35 ∷ 0x37 ∷ 0x0f ∷ [])
    ∷ (0xc0 ∷ 0x17 ∷ 0x15 ∷ [])
    ∷ (0xc1 ∷ 0x41 ∷ [])
    ∷ (0xc5 ∷ 0x00 ∷ 0x12 ∷ 0x80 ∷ [])
    ∷ (0x36 ∷ 0x48 ∷ [])
    ∷ (0x3a ∷ 0x55 ∷ [])
    ∷ (0xb0 ∷ 0x00 ∷ [])
    ∷ (0xb1 ∷ 0xa0 ∷ [])
    ∷ (0x21 ∷ [])
    ∷ (0xb4 ∷ 0x02 ∷ [])
    ∷ (0xb6 ∷ 0x02 ∷ 0x02 ∷ 0x3b ∷ [])
    ∷ (0xb7 ∷ 0xc6 ∷ 0xe9 ∷ 0x00 ∷ [])
    ∷ (0xf7 ∷ 0xa9 ∷ 0x51 ∷ 0x2c ∷ 0x82 ∷ [])
    ∷ (0x11 ∷ [])
    ∷ []

-- `strncmp(buf, "init", 4) == 0`
unfoldable pub is_init : List ℕ → Bool
is_init (a ∷ b ∷ c ∷ d ∷ rest) = a == 105 && b == 110 && c == 105 && d == 116
is_init text = false

module _ {D : Type 0} (spi : Spi D) where
  unfoldable pub lcd_init_sequence : Dbg D → Dbg D
  unfolding lcd_writes
  lcd_init_sequence w =
      let w1 = signal (msleep 100) (lcd_writes spi init_commands (signal (msleep 120) w)) in
      signal (msleep 50) (lcd_write spi (0x29 ∷ []) w1).1

  -- The result: the count of the text, or an error.
  unfoldable pub write_store : (Digits → Option ℕ) → List ℕ → Dbg D → Ret ℕ × Dbg D
  unfolding parsed lcd_init_sequence is_init
  write_store kstrtou8 text w =
      let bytes = parsed kstrtou8 text in
      let (ret, w') = lcd_write spi bytes w in
      let written : Ret ℕ × Dbg D = elim ret [
        | none ↦ (value (length text), w')
        | some e ↦ (failure e, w')
      ] in
      if not w.g_spi
      then (failure enodev, w)
      else if is_init text
      then (value (length text), lcd_init_sequence w)
      else if length bytes == 0
      then (failure einval, w)
      else written

-- The answers of the kernel to the calls of the module's start: whether the device is found and can be
-- held, whether its DC line is known, whether the kobject is made, and the error of its files.
pub record Found : Type 0 where
  pub device : Bool
  pub held : Bool
  pub dc_valid : Bool
  pub kobject : Bool
  pub groups : Option ℕ

-- The references to the device that the module holds are counted.
pub record Module (D : Type 0) : Type 0 where
  pub dbg : Dbg D
  pub refs : ℕ

module _ {D : Type 0} where
  abbrev pub let_go : Module D → Module D
  let_go m = record { dbg = record (m.dbg) { g_spi = false }; refs = m.refs - 1 }

  unfoldable pub ili9488_dbg_init : Found → Module D → Option ℕ × Module D
  ili9488_dbg_init found m =
      let held : Module D = record {
        dbg = record (m.dbg) { g_spi = true; g_dc_gpio = found.dc_valid };
        refs = m.refs + 1;
      } in
      let made : Module D = record held { dbg = record (held.dbg) { g_kobj = true } } in
      if not found.device
      then (some enodev, m)
      else if not found.held
      then (some enodev, record m { dbg = record (m.dbg) { g_spi = false } })
      else if not found.kobject
      then (some enomem, let_go held)
      else elim found.groups [ none ↦ (none, made) | some e ↦ (some e, let_go made) ]

  unfoldable pub ili9488_dbg_exit : Module D → Module D
  ili9488_dbg_exit m =
      let freed = if m.dbg.g_spi then m.refs - 1 else m.refs in
      record { dbg = record (m.dbg) { g_spi = false; g_dc_gpio = false }; refs = freed }

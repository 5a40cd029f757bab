-- ===== src/Panel.antt =====
-- src/kernel-6.1/drivers/gpu/drm/tiny/ili9488.c: the panel's driver. The calls of the kernel's MIPI DBI
-- library are logged, and what they and the probe's other calls answer is an argument.
pub mod Probe
mod Examples
use picocalc_ubuntu_kernel.Prelude.{
  Bool, List, Option, false, ℕ, [], if◌then◌else◌, none, some, ◌∷◌, true,
}
use picocalc_ubuntu_kernel.Platform.{Ret, failure, value}

-- mipi_dbi_command, msleep, mipi_dbi_enable_flush
pub data Step : Type 0 where
  dbi_command : ℕ → List ℕ → Step
  sleep : ℕ → Step
  enable_flush : Step

-- The steps behind the reset, in their order.
abbrev pub enable_steps : List Step
enable_steps =
    dbi_command 0xe0 (
      0x00 ∷ 0x03 ∷ 0x09 ∷ 0x08 ∷ 0x16 ∷ 0x0a ∷ 0x3f ∷ 0x78 ∷ 0x4c ∷ 0x09 ∷ 0x0a ∷ 0x08 ∷ 0x16
      ∷ 0x1a ∷ 0x0f ∷ [])
    ∷ dbi_command 0xe1 (
        0x00 ∷ 0x16 ∷ 0x19 ∷ 0x03 ∷ 0x0f ∷ 0x05 ∷ 0x32 ∷ 0x45 ∷ 0x46 ∷ 0x04 ∷ 0x0e ∷ 0x0d ∷ 0x35
        ∷ 0x37 ∷ 0x0f ∷ [])
    ∷ dbi_command 0xc0 (0x17 ∷ 0x15 ∷ [])
    ∷ dbi_command 0xc1 (0x41 ∷ [])
    ∷ dbi_command 0xc5 (0x00 ∷ 0x12 ∷ 0x80 ∷ [])
    ∷ dbi_command 0x36 (0x48 ∷ [])
    ∷ dbi_command 0x3a (0x55 ∷ [])
    ∷ dbi_command 0xb0 (0x00 ∷ [])
    ∷ dbi_command 0xb1 (0xa0 ∷ [])
    ∷ dbi_command 0x21 []
    ∷ dbi_command 0xb4 (0x02 ∷ [])
    ∷ dbi_command 0xb6 (0x02 ∷ 0x02 ∷ 0x3b ∷ [])
    ∷ dbi_command 0xb7 (0xc6 ∷ 0xe9 ∷ 0x00 ∷ [])
    ∷ dbi_command 0xf7 (0xa9 ∷ 0x51 ∷ 0x2c ∷ 0x82 ∷ [])
    ∷ dbi_command 0x11 []
    ∷ sleep 100
    ∷ enable_flush
    ∷ sleep 50
    ∷ dbi_command 0x29 []
    ∷ []

-- What ili9488_enable does, by whether the device is there and what the conditional reset answers.
unfoldable pub ili9488_enable : Bool → Ret ℕ → List Step
ili9488_enable entered reset =
    if entered then elim reset [ failure e ↦ [] | value v ↦ enable_steps ] else []

-- The bytes that a step sends to the panel, by the bus's protocol: the command, then its arguments.
unfoldable pub sent : List Step → List (List ℕ)
sent [] = []
sent (dbi_command c args ∷ steps) = (c ∷ args) ∷ sent steps
sent (sleep ms ∷ steps) = sent steps
sent (enable_flush ∷ steps) = sent steps

-- The answers of the kernel to the calls of the probe, none for success: the device's memory, the reset
-- and dc lines, the backlight of the device tree and the one in its place, the SPI interface, the
-- display's setup and its registration; and the rotation of the device tree, if it is there.
pub record Answers : Type 0 where
  pub alloc : Option ℕ
  pub reset_line : Option ℕ
  pub dc_line : Option ℕ
  pub backlight : Option ℕ
  pub dummy : Option ℕ
  pub spi_init : Option ℕ
  pub dev_init : Option ℕ
  pub registered : Option ℕ
  pub rotation : Option ℕ

-- What the probe leaves: which backlight drives the panel, with which rotation it was set up, whether
-- the device is registered with the kernel, whether the console runs on it.
pub record Display : Type 0 where
  pub dummy_backlight : Bool
  pub set_up : Option ℕ
  pub is_registered : Bool
  pub drvdata : Bool
  pub has_console : Bool

abbrev pub no_display : Display
no_display = record {
  dummy_backlight = false;
  set_up = none;
  is_registered = false;
  drvdata = false;
  has_console = false;
}

-- A call of the probe: its error ends it.
abbrev pub try : Option ℕ → (Display → Option ℕ × Display) → Display → Option ℕ × Display
try none next s = next s
try (some e) next s = (some e, s)

abbrev pub rotation_of : Answers → ℕ
rotation_of a = elim a.rotation [ none ↦ 0 | some r ↦ r ]

unfoldable pub find_backlight :
    Answers → (Display → Option ℕ × Display) → Display → Option ℕ × Display
find_backlight a next s = elim a.backlight [
  | none ↦ next s
  | some e ↦ elim a.dummy [
    | none ↦ next (record s { dummy_backlight = true })
    | some e' ↦ (some e', s)
  ]
]

unfoldable pub ili9488_probe : Answers → Option ℕ × Display
unfolding find_backlight
ili9488_probe a =
    try a.alloc
      (try a.reset_line (
        try a.dc_line (
          find_backlight a (
            try a.spi_init (
              try a.dev_init (λ s.
                try a.registered
                  (λ t.
                    (none, record t { is_registered = true; drvdata = true; has_console = true }))
                  (record s { set_up = some (rotation_of a) })))))))
      no_display

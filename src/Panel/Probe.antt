-- ===== src/Panel/Probe.antt =====
-- What ili9488_probe returns and leaves, by the answers of the calls that it makes.
use picocalc_ubuntu_kernel.Prelude.{
  List, Option, ◌≡◌, not, ℕ, Bool, none, some, ◌∷◌, [], arith, false, true,
}
use picocalc_ubuntu_kernel.Panel.{Answers, ili9488_probe, find_backlight, rotation_of}

unfoldable pub first_error : List (Option ℕ) → Option ℕ
first_error [] = none
first_error (none ∷ rest) = first_error rest
first_error (some e ∷ rest) = some e

-- The backlight fails when the one of the device tree and the one in its place fail.
abbrev pub no_backlight : Option ℕ → Option ℕ → Option ℕ
no_backlight none dummy = none
no_backlight (some e) dummy = dummy

abbrev pub is_some : Option ℕ → Bool
is_some none = false
is_some (some e) = true

abbrev pub calls : Answers → List (Option ℕ)
calls a =
    a.alloc
    ∷ a.reset_line
    ∷ a.dc_line
    ∷ no_backlight a.backlight a.dummy
    ∷ a.spi_init
    ∷ a.dev_init
    ∷ a.registered
    ∷ []

-- The probe returns the error of the first call that fails, in the order of the calls, where a failed
-- backlight of the device tree does not count unless the one in its place fails as well. The display is
-- registered, known to the SPI device and carries the console when there is no error, and only then;
-- and then it is set up with the rotation of the device tree, or 0, and has the backlight in place of
-- the real one whenever the search for the real one gave an error, whichever error that was.
pub probe_outcome :
    (a : Answers)
    → let (ret, s) = ili9488_probe a in
      (ret ≡ first_error (calls a))
      × (s.is_registered ≡ not (is_some ret))
      × (s.drvdata ≡ not (is_some ret))
      × (s.has_console ≡ not (is_some ret))
      × (ret ≡ none → (s.set_up ≡ some (rotation_of a)) × (s.dummy_backlight ≡ is_some a.backlight))
unfolding ili9488_probe find_backlight first_error
probe_outcome a = ground arith

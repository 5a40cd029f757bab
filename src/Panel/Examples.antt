-- ===== src/Panel/Examples.antt =====
-- A probe whose backlight is not there yet.
use picocalc_ubuntu_kernel.Prelude.{none, ◌≡◌, not, some, true}
use picocalc_ubuntu_kernel.Panel.{Answers, ili9488_probe}
use picocalc_ubuntu_kernel.Panel.Probe.{first_error, calls, is_some, probe_outcome}

-- -EPROBE_DEFER
abbrev deferred : Answers
deferred = record {
  alloc = none;
  reset_line = none;
  dc_line = none;
  backlight = some 517;
  dummy = none;
  spi_init = none;
  dev_init = none;
  registered = none;
  rotation = some 90;
}

probe_outcome_example :
    let (ret, s) = ili9488_probe deferred in
    (ret ≡ first_error (calls deferred))
    × (s.is_registered ≡ not (is_some ret))
    × (s.drvdata ≡ not (is_some ret))
    × (s.has_console ≡ not (is_some ret))
    × (ret ≡ none → (s.set_up ≡ some 90) × (s.dummy_backlight ≡ true))
probe_outcome_example = probe_outcome deferred

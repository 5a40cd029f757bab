-- ===== src/Link/Battery.antt =====
-- The battery from the power chip to sysfs.
use picocalc_ubuntu_kernel.Prelude.{refl, false, true}
use picocalc_ubuntu_kernel.Fw.State.{Firmware}
use picocalc_ubuntu_kernel.Fw.Bus.{receive_event, rcv_loop, command, request_event}
use picocalc_ubuntu_kernel.Link.{controller, value}
use picocalc_ubuntu_kernel.Kbd.Context.{kbd_read_i2c_2u8, World}
use picocalc_ubuntu_kernel.Fw.Regs.{reg_set_value, reg_get_value}
use picocalc_ubuntu_kernel.Prelude.Int.{pos}
use picocalc_ubuntu_kernel.Kbd.Sysfs.{battery_percent_show, reg_id_bat}
use picocalc_ubuntu_kernel.Fw.Power.{bat_value, sync_bat}
use picocalc_ubuntu_kernel.Prelude.{
  all_below, ℕ, Bool, ◌<◌, ◌==◌, ◌≡◌, if◌then◌else◌, ◌+◌, arith, all_below_sound, some, ◌*◌, ◌∙◌,
  ap, ◌/◌, ◌%◌,
}

charged_table : all_below 128 (λ n. bat_value (pos n) true == 128 + n) ≡ true
unfolding all_below bat_value
charged_table = refl

bat_value-lem :
    (n : ℕ) (charging : Bool)
    → n < 128
    → bat_value (pos n) charging ≡ (if charging then 128 + n else n)
unfolding bat_value
bat_value-lem n true h =
    ground (arith, all_below_sound 128 (λ k. bat_value (pos k) true == 128 + k) n charged_table h)
bat_value-lem n false h = ground arith

module _ {K : Type 0} (tick : K → ℕ × K) (stack : ℕ × ℕ) where
  bat_read :
      (w : World (Firmware × K))
      → (battery_percent_show (controller tick stack) (some w)).0
        ≡ value ((11 + 256 * reg_get_value reg_id_bat w.dev.0) / 256 % 256)
  unfolding battery_percent_show kbd_read_i2c_2u8 controller receive_event rcv_loop command
      request_event reg_get_value
  bat_read w = refl

  -- What the power chip says of a battery, a percentage below 128 and whether it charges, the driver's
  -- file shows once the firmware has noted it: the percentage, and 128 more while the battery charges.
  pub battery_roundtrip :
      (n : ℕ) (charging : Bool) (w : World (Firmware × K))
      → n < 128
      → (battery_percent_show
          (controller tick stack)
          (some (record w { dev = (sync_bat (pos n) charging w.dev.0, w.dev.1) }))).0
        ≡ value (if charging then 128 + n else n)
  unfolding sync_bat reg_set_value reg_get_value
  battery_roundtrip n charging w h =
      bat_read (record w { dev = (sync_bat (pos n) charging w.dev.0, w.dev.1) })
      ∙ ap (λ v. value ((11 + 256 * v) / 256 % 256)) (bat_value-lem n charging h)
      ∙ ap value (ground arith)

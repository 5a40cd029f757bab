-- ===== src/Fw/Regs.antt =====
-- reg.ino and reg.h: the registers that the driver reads and writes.
pub mod Ids
use picocalc_ubuntu_kernel.Fw.Regs.Ids.{
  reg_id_cfg, cfg_overflow_int, cfg_key_int, cfg_use_mods, cfg_report_mods, reg_id_deb, reg_id_frq,
  reg_id_bkl, reg_id_bk2, reg_id_bat, reg_id_led,
}
use Prim.Native.Nat.{bit_and, bit_or}
use picocalc_ubuntu_kernel.Prelude.{ℕ, Bool, update, ◌==◌, not}
use picocalc_ubuntu_kernel.Fw.State.{Firmware}

unfoldable pub reg_get_value : ℕ → Firmware → ℕ
reg_get_value r s = s.regs r

unfoldable pub reg_set_value : ℕ → ℕ → Firmware → Firmware
reg_set_value r v s = record s { regs = update s.regs r v }

unfoldable pub reg_is_bit_set : ℕ → ℕ → Firmware → Bool
reg_is_bit_set r bit s = not (bit_and (s.regs r) bit == 0)

unfoldable pub reg_set_bit : ℕ → ℕ → Firmware → Firmware
reg_set_bit r bit s = record s { regs = update s.regs r (bit_or (s.regs r) bit) }

unfoldable pub reg_init : Firmware → Firmware
reg_init s = record s {
  regs =
      update
        (update
          (update
            (update
              (update
                (update
                  (update s.regs reg_id_cfg (
                    bit_or (bit_or (bit_or cfg_overflow_int cfg_key_int) cfg_use_mods)
                      cfg_report_mods))
                  reg_id_deb 10)
                reg_id_frq 5)
              reg_id_bkl 32)
            reg_id_bk2 0)
          reg_id_bat 0)
        reg_id_led 0;
}

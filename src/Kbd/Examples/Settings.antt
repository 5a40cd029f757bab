-- ===== src/Kbd/Examples/Settings.antt =====
-- The theorems on the backlights, the mouse and the tables at concrete inputs.
use picocalc_ubuntu_kernel.Kbd.Keymap.{is_declared, table_codes_declared, covered}
use picocalc_ubuntu_kernel.Input.{smbus_write, btn_left, btn_right}
use picocalc_ubuntu_kernel.Kbd.Mouse.Steps.{run_axis, sum, no_drift}
use picocalc_ubuntu_kernel.Kbd.Examples.{start, toy, arith, false, pk_a, true, []}
use picocalc_ubuntu_kernel.Prelude.Int.{pos}
use picocalc_ubuntu_kernel.Kbd.Tables.{phys_to_base_keycode, lookup_fn_keycode}
use picocalc_ubuntu_kernel.Kbd.Probe.{new_ctx}
use picocalc_ubuntu_kernel.Kbd.Backlight.Flash.{triggers, flash_restores}
use picocalc_ubuntu_kernel.Kbd.Backlight.{bl_flash_restore}
use picocalc_ubuntu_kernel.Prelude.{refl, ℕ, ◌<◌, ◌+◌, ◌≡◌, ◌∷◌, ◌*◌, ◌^◌}

no_flash : start.ctx.bl_flash_active ≡ false
unfolding new_ctx
no_flash = refl

flash_restores_example :
    let w' = triggers toy 2 start in
    ((bl_flash_restore toy w').out ≡ smbus_write 0x8a 100 ∷ w'.out)
    × ((bl_flash_restore toy w').ctx.bl_flash_active ≡ false)
flash_restores_example = flash_restores toy 1 (100 * 256 + 10) start no_flash refl

small_total : sum (300 ∷ 205 ∷ []) < 2 ^ 30
unfolding sum
small_total = ground arith

no_drift_example :
    (last : ℕ) × ((run_axis (pos 10) (300 ∷ 205 ∷ [])).1 ≡ pos last)
    × (last < 256)
    × ((run_axis (pos 10) (300 ∷ 205 ∷ [])).0 * 256 + last ≡ 10 + sum (300 ∷ 205 ∷ []))
no_drift_example = no_drift 10 (300 ∷ 205 ∷ []) (ground arith) small_total

table_codes_declared_example :
    (covered (phys_to_base_keycode pk_a) ≡ true)
    × (covered (lookup_fn_keycode pk_a true) ≡ true)
    × (is_declared btn_left ≡ true)
    × (is_declared btn_right ≡ true)
table_codes_declared_example = table_codes_declared pk_a true (ground arith)

-- ===== src/Kbd/Sysfs.antt =====
-- The sysfs entries of picocalc_kbd.c. The global `g_ctx` is none before the probe; the text of an
-- entry is what kstrtoint, a parameter, makes of it; a show is modelled by the number that it prints.
pub mod Checks
use Prim.Native.Nat.{bit_and, bit_or}
use picocalc_ubuntu_kernel.Prelude.{
  ℕ, ◌-◌, ◌/◌, ◌%◌, ◌^◌, Bool, true, false, not, ◌&&◌, ◌||◌, ltb, leb, ◌==◌, if◌then◌else◌, Option,
  none, some,
}
use picocalc_ubuntu_kernel.Prelude.Int.{ℤ, pos, negsuc, pos_part, ltb_ℤ, pattern32}
use picocalc_ubuntu_kernel.Platform.{Platform, Ret, value, failure, map_ret, einval}
use picocalc_ubuntu_kernel.Kbd.Context.{
  KbdCtx, World, on_ctx, kbd_read_reg, kbd_read_i2c_2u8, kbd_write_i2c_u8,
}
use picocalc_ubuntu_kernel.Kbd.Backlight.{reg_id_bkl, reg_id_bk2}

abbrev pub reg_id_cfg : ℕ
reg_id_cfg = 0x02

abbrev pub reg_id_bat : ℕ
reg_id_bat = 0x0b

abbrev pub reg_id_off : ℕ
reg_id_off = 0x0e

abbrev pub cfg_use_mods : ℕ
cfg_use_mods = 0x80

-- `(uint8_t)v` of an int.
abbrev pub to_u8 : ℤ → ℕ
to_u8 v = pattern32 v % 256

abbrev pub Global : Type 0 → Type 0
Global D = Option (World D)

-- Where a store is refused: the text is no number, or the number is out of range.
unfoldable pub checked : Ret ℤ → (ℤ → Bool) → Ret ℤ
checked (value v) bad = if bad v then failure einval else value v
checked (failure e) bad = failure einval

-- `if (v) cfg |= CFG_USE_MODS; else cfg &= ~CFG_USE_MODS;`
unfoldable pub with_mods : ℤ → ℕ → ℕ
with_mods v cfg = if pos_part v == 0 then bit_and cfg 0x7f else bit_or cfg cfg_use_mods

-- `if (g_ctx) g_ctx->field = v;`
abbrev pub set_global : {D : Type 0} → (KbdCtx → KbdCtx) → Global D → Global D
set_global f none = none
set_global f (some w) = some (on_ctx f w)

module _ {Buf : Type 0} (kstrtoint : Buf → Ret ℤ) where
  unfoldable pub parse_u8 : Buf → Ret ℤ
  unfolding checked
  parse_u8 buf = checked (kstrtoint buf) (λ v. ltb_ℤ v (pos 0) || ltb_ℤ (pos 255) v)

  module _ {D : Type 0} where
    -- The five mouse parameters are stored alike: negative numbers are refused.
    unfoldable pub store_param : (ℤ → KbdCtx → KbdCtx) → Buf → ℕ → Global D → Ret ℕ × Global D
    unfolding checked
    store_param set buf count g = elim (checked (kstrtoint buf) (λ v. ltb_ℤ v (pos 0))) [
      | failure e ↦ (failure e, g)
      | value v ↦ (value count, set_global (set v) g)
    ]

    pub mouse_initial_step_store : Buf → ℕ → Global D → Ret ℕ × Global D
    mouse_initial_step_store = store_param (λ v c. record c { mouse_initial_step = v })

    pub mouse_max_speed_store : Buf → ℕ → Global D → Ret ℕ × Global D
    mouse_max_speed_store = store_param (λ v c. record c { mouse_max_speed = v })

    pub mouse_accel_time_store : Buf → ℕ → Global D → Ret ℕ × Global D
    mouse_accel_time_store = store_param (λ v c. record c { mouse_accel_time_ms = v })

    pub mouse_base_speed_store : Buf → ℕ → Global D → Ret ℕ × Global D
    mouse_base_speed_store = store_param (λ v c. record c { mouse_base_speed = v })

    pub mouse_start_delay_store : Buf → ℕ → Global D → Ret ℕ × Global D
    mouse_start_delay_store = store_param (λ v c. record c { mouse_start_delay_ms = v })

  module _ {D : Type 0} (p : Platform D) where
    -- A write whose own result is not looked at.
    abbrev write_reg : ℕ → ℕ → Global D → Global D
    write_reg reg val none = none
    write_reg reg val (some w) = some (kbd_write_i2c_u8 p reg val w).1

    unfoldable pub parse_and_write_i2c_u8 : Buf → ℕ → ℕ → Global D → Ret ℕ × Global D
    unfolding parse_u8
    parse_and_write_i2c_u8 buf count reg g = elim (parse_u8 buf) [
      | failure e ↦ (failure einval, g)
      | value v ↦ (value count, write_reg reg (to_u8 v) g)
    ]

    unfoldable pub keyboard_backlight_store : Buf → ℕ → Global D → Ret ℕ × Global D
    unfolding parse_and_write_i2c_u8
    keyboard_backlight_store buf count g = parse_and_write_i2c_u8 buf count reg_id_bk2 g

    unfoldable pub screen_backlight_store : Buf → ℕ → Global D → Ret ℕ × Global D
    unfolding parse_and_write_i2c_u8
    screen_backlight_store buf count g = parse_and_write_i2c_u8 buf count reg_id_bkl g

    unfoldable pub poweroff_store : Buf → ℕ → Global D → Ret ℕ × Global D
    unfolding checked
    poweroff_store buf count g = elim (checked (kstrtoint buf) (λ v. ltb_ℤ v (pos 6))) [
      | failure e ↦ (failure e, g)
      | value v ↦ (value count, write_reg reg_id_off (to_u8 v) g)
    ]

    -- The read's result is not looked at: after a failed one `cfg` is 0.
    unfoldable pub fw_use_mods_store : Buf → ℕ → Global D → Ret ℕ × Global D
    unfolding checked with_mods
    fw_use_mods_store buf count g =
        elim (checked (kstrtoint buf) (λ v. ltb_ℤ v (pos 0) || ltb_ℤ (pos 1) v)) [
          | failure e ↦ (failure e, g)
          | value v ↦ elim g [
            | none ↦ (failure einval, none)
            | some w ↦
                let (r, w') = kbd_read_reg p reg_id_cfg w in
                let cfg : ℕ = elim r [ value c ↦ c | failure e ↦ 0 ] in
                (value count, write_reg reg_id_cfg (with_mods v cfg) (some w'))
          ]
        ]

module _ {D : Type 0} (p : Platform D) where
  unfoldable pub battery_percent_show : Global D → Ret ℕ × Global D
  battery_percent_show none = (failure einval, none)
  battery_percent_show (some w) =
      let (r, w') = kbd_read_i2c_2u8 p reg_id_bat w in (map_ret (λ b. b.1) r, some w')

  -- Milliseconds since the last key, or -1.
  unfoldable pub last_keypress_show : Global D → ℤ × Global D
  last_keypress_show none = (negsuc 0, none)
  last_keypress_show (some w) =
      let (now, d) = p.ktime w.dev in
      let ago = pos ((now - w.ctx.last_keypress_at) / 1000000) in
      (if leb now w.ctx.last_keypress_at then negsuc 0 else ago, some (record w { dev = d }))

  unfoldable pub fw_use_mods_show : Global D → ℕ × Global D
  fw_use_mods_show none = (0, none)
  fw_use_mods_show (some w) =
      let (r, w') = kbd_read_reg p reg_id_cfg w in
      let cfg : ℕ = elim r [ value c ↦ c | failure e ↦ 0 ] in
      (if bit_and cfg cfg_use_mods == 0 then 0 else 1, some w')

-- The mouse parameters are shown alike: -1 before the probe.
unfoldable pub show_param : {D : Type 0} → (KbdCtx → ℤ) → Global D → ℤ
show_param field none = negsuc 0
show_param field (some w) = field w.ctx

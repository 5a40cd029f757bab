-- ===== src/Kbd/Sysfs/Checks.antt =====
-- What the sysfs stores of picocalc_kbd.c let through.
use picocalc_ubuntu_kernel.Prelude.{
  inl, inr, Bool-cases, ℕ, ◌+◌, ◌/◌, ◌%◌, ◌^◌, ◌≤◌, ◌<◌, ◌≡◌, refl, ◌⊎◌, Bool, true, false, ◌&&◌,
  ◌==◌, none, some, ◌∷◌, all_below, all_below_sound, arith, ◌*◌,
}
use picocalc_ubuntu_kernel.Prelude.Int.{ℤ, pos, ltb_ℤ}
use picocalc_ubuntu_kernel.Input.{smbus_write}
use picocalc_ubuntu_kernel.Platform.{Ret-cases, Platform, Ret, value, failure, einval}
use picocalc_ubuntu_kernel.Kbd.Context.{KbdCtx, World, kbd_read_reg, kbd_write_i2c_u8}
use picocalc_ubuntu_kernel.Kbd.Sysfs.{
  set_global, Global, store_param, mouse_initial_step_store, mouse_max_speed_store,
  mouse_accel_time_store, mouse_base_speed_store, mouse_start_delay_store, poweroff_store,
  fw_use_mods_store, with_mods, reg_id_cfg, checked,
}

abbrev IsNonneg : ℤ → Type 0
IsNonneg v = ltb_ℤ v (pos 0) ≡ false

-- The five mouse parameters are not negative.
pub record ParamsOk (c : KbdCtx) : Type 0 where
  pub initial_step : IsNonneg c.mouse_initial_step
  pub base_speed : IsNonneg c.mouse_base_speed
  pub max_speed : IsNonneg c.mouse_max_speed
  pub start_delay : IsNonneg c.mouse_start_delay_ms
  pub accel_time : IsNonneg c.mouse_accel_time_ms

abbrev pub GlobalOk : {D : Type 0} → Global D → Type 0
GlobalOk none = Unit {0}
GlobalOk (some w) = ParamsOk w.ctx

checked-cases :
    (r : Ret ℤ) (bad : ℤ → Bool)
    → ((v : ℤ) × (checked r bad ≡ value v) × (bad v ≡ false))
      ⊎ ((e : ℕ) × (checked r bad ≡ failure e))
unfolding checked
checked-cases (failure e) bad = inr (einval, refl)
checked-cases (value v) bad = elim (Bool-cases (bad v)) [
  | inl h ↦ inr (einval, rw h)
  | inr h ↦ inl (v, rw h, h)
]

mods_table :
    all_below 256 (λ c. with_mods (pos 0) c == c % 128 && with_mods (pos 1) c == c % 128 + 128)
    ≡ true
unfolding all_below with_mods
mods_table = refl

with_mods_lem :
    (c : ℕ) → c < 256 → (with_mods (pos 0) c ≡ c % 128) × (with_mods (pos 1) c ≡ c % 128 + 128)
with_mods_lem c h = ground (
  arith,
  all_below_sound 256 (λ c. with_mods (pos 0) c == c % 128 && with_mods (pos 1) c == c % 128 + 128)
      c mods_table,
)

module _ {Buf : Type 0} (kstrtoint : Buf → Ret ℤ) where
  store_param-GlobalOk :
      {D : Type 0} (set : ℤ → KbdCtx → KbdCtx)
      → ((v : ℤ) (c : KbdCtx) → IsNonneg v → ParamsOk c → ParamsOk (set v c))
      → (buf : Buf) (count : ℕ) (g : Global D) → GlobalOk g
      → GlobalOk (store_param kstrtoint set buf count g).1
  unfolding store_param
  store_param-GlobalOk {D} set keep buf count g ok =
      elim (checked-cases (kstrtoint buf) (λ v. ltb_ℤ v (pos 0))) [
        | inr (e, refused) ↦ rw (refused, store_param) ok
        | inl (v, taken, fits) ↦ rw (taken, store_param) (stored v fits g ok)
      ]
    where
      stored : (v : ℤ) → IsNonneg v → (g : Global D) → GlobalOk g → GlobalOk (set_global (set v) g)
      stored v fits none ok = tt
      stored v fits (some w) ok = keep v w.ctx fits ok

  -- No store makes a mouse parameter negative, whatever text is written: a negative number is refused,
  -- and before the probe there is nothing to store into.
  pub stores-GlobalOk :
      {D : Type 0} (buf : Buf) (count : ℕ) (g : Global D)
      → GlobalOk g
      → GlobalOk (mouse_initial_step_store kstrtoint buf count g).1
        × GlobalOk (mouse_base_speed_store kstrtoint buf count g).1
        × GlobalOk (mouse_max_speed_store kstrtoint buf count g).1
        × GlobalOk (mouse_start_delay_store kstrtoint buf count g).1
        × GlobalOk (mouse_accel_time_store kstrtoint buf count g).1
  unfolding mouse_initial_step_store mouse_base_speed_store mouse_max_speed_store
      mouse_start_delay_store mouse_accel_time_store
  stores-GlobalOk buf count g ok = (
    store_param-GlobalOk (λ v c. record c { mouse_initial_step = v })
        (λ v c n k. record {
          initial_step = n;
          base_speed = k.base_speed;
          max_speed = k.max_speed;
          start_delay = k.start_delay;
          accel_time = k.accel_time;
        })
        buf count g ok,
    store_param-GlobalOk (λ v c. record c { mouse_base_speed = v })
        (λ v c n k. record {
          initial_step = k.initial_step;
          base_speed = n;
          max_speed = k.max_speed;
          start_delay = k.start_delay;
          accel_time = k.accel_time;
        })
        buf count g ok,
    store_param-GlobalOk (λ v c. record c { mouse_max_speed = v })
        (λ v c n k. record {
          initial_step = k.initial_step;
          base_speed = k.base_speed;
          max_speed = n;
          start_delay = k.start_delay;
          accel_time = k.accel_time;
        })
        buf count g ok,
    store_param-GlobalOk (λ v c. record c { mouse_start_delay_ms = v })
        (λ v c n k. record {
          initial_step = k.initial_step;
          base_speed = k.base_speed;
          max_speed = k.max_speed;
          start_delay = n;
          accel_time = k.accel_time;
        })
        buf count g ok,
    store_param-GlobalOk (λ v c. record c { mouse_accel_time_ms = v })
        (λ v c n k. record {
          initial_step = k.initial_step;
          base_speed = k.base_speed;
          max_speed = k.max_speed;
          start_delay = k.start_delay;
          accel_time = n;
        })
        buf count g ok,
  )

module _ {Buf : Type 0} (kstrtoint : Buf → Ret ℤ) {D : Type 0} (p : Platform D) where
  -- A power-off delay is accepted from 6 seconds on, and the byte that is sent is the delay modulo 256:
  -- a delay that fits the byte is sent as it is.
  pub poweroff_sends :
      (buf : Buf) (count n : ℕ) (w : World D)
      → kstrtoint buf ≡ value (pos n)
      → 6 ≤ n
      → n < 2 ^ 31
      → (w' : World D) × (poweroff_store kstrtoint p buf count (some w) ≡ (value count, some w'))
        × (w'.out ≡ smbus_write 0x8e (n % 256) ∷ w.out)
  unfolding poweroff_store kbd_write_i2c_u8
  poweroff_sends buf count n w text low high =
      ((kbd_write_i2c_u8 p 0x0e (n % 256) w).1, ground arith, refl)

  -- The switch of the firmware's modifiers, n, is 0 or 1, and goes to bit 7 of the configuration
  -- register. The other bits are kept as they were read; where the read failed, they are written as 0.
  pub fw_use_mods_writes :
      (buf : Buf) (count n : ℕ) (w : World D)
      → kstrtoint buf ≡ value (pos n)
      → n ≤ 1
      → (b : ℕ) × (w' : World D) × (fw_use_mods_store kstrtoint p buf count (some w)
          ≡ (value count, some w'))
        × (w'.out ≡ smbus_write 0x82 b ∷ w.out)
        × (((r : ℕ) × ((p.read_word w.dev reg_id_cfg).0 ≡ value r)
              × (b ≡ r / 256 % 256 % 128 + 128 * n))
            ⊎ ((e : ℕ) × ((p.read_word w.dev reg_id_cfg).0 ≡ failure e) × (b ≡ 128 * n)))
  unfolding fw_use_mods_store kbd_write_i2c_u8 kbd_read_reg
  fw_use_mods_writes buf count n w text small = elim (Ret-cases (p.read_word w.dev reg_id_cfg).0) [
    | inl (r, e) ↦
        let cfg = r / 256 % 256 in
        let w' = (kbd_read_reg p reg_id_cfg w).1 in
        (
          with_mods (pos n) cfg,
          (kbd_write_i2c_u8 p reg_id_cfg (with_mods (pos n) cfg) w').1,
          ground arith,
          refl,
          inl (r, e, ground (arith, with_mods_lem cfg (omega arith))),
        )
    | inr (x, e) ↦
        let w' = (kbd_read_reg p reg_id_cfg w).1 in
        (
          with_mods (pos n) 0,
          (kbd_write_i2c_u8 p reg_id_cfg (with_mods (pos n) 0) w').1,
          ground arith,
          refl,
          inr (x, e, ground (arith, with_mods_lem 0 (omega arith))),
        )
  ]

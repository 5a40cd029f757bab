-- ===== src/Platform.antt =====
-- The kernel services that the keyboard driver calls: the SMBus transfers to the keyboard controller
-- and the boot-time clock. They are parameters of the model, over an arbitrary state of the machine.
use picocalc_ubuntu_kernel.Prelude.{ℕ, ◌≡◌, refl, ◌⊎◌, inl, inr}

-- An `int` result of the kernel: a value, or the negative number -e of an error e.
pub data Ret {ℓ} (A : Type ℓ) : Type ℓ where
  value : A → Ret A
  failure : ℕ → Ret A

abbrev pub map_ret {ℓ κ} : {A : Type ℓ} {B : Type κ} → (A → B) → Ret A → Ret B
map_ret f (value a) = value (f a)
map_ret f (failure e) = failure e

-- The error numbers of <linux/errno.h> that the drivers return.
abbrev pub einval : ℕ
einval = 22

abbrev pub enodev : ℕ
enodev = 19

abbrev pub enomem : ℕ
enomem = 12

pub record Platform (D : Type 0) : Type 0 where
  -- i2c_smbus_read_byte_data, i2c_smbus_read_word_data, i2c_smbus_write_byte_data
  pub read_byte : D → ℕ → Ret ℕ × D
  pub read_word : D → ℕ → Ret ℕ × D
  pub write_byte : D → ℕ → ℕ → Ret ℕ × D
  -- ktime_get_boottime_ns
  pub ktime : D → ℕ × D

pub Ret-cases {ℓ} :
    {A : Type ℓ} (r : Ret A) → ((a : A) × (r ≡ value a)) ⊎ ((e : ℕ) × (r ≡ failure e))
Ret-cases (value a) = inl (a, refl)
Ret-cases (failure e) = inr (e, refl)

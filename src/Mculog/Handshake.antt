-- ===== src/Mculog/Handshake.antt =====
-- The handshake of mculog_probe (src/kernel-6.1/drivers/misc/mculog.c) with `main` of
-- src/hal/project/rk3506-mcu/src/main.c, over the header in the shared memory.
use picocalc_ubuntu_kernel.Platform.{enodev}
pub mod Greeting
use picocalc_ubuntu_kernel.Prelude.Int.{ℤ, pos, negsuc, ◌+ℤ◌, ltb_ℤ}
use picocalc_ubuntu_kernel.Mculog.{MculogBuffer, mculog_init, region_refused, einval}
use picocalc_ubuntu_kernel.Prelude.{
  true, Bool, Option, if◌then◌else◌, ℕ, none, not, suc, ◌-◌, some, zero, ◌&&◌, ◌+◌, ◌==◌,
}

abbrev pub mcul : ℕ
mcul = 0x4d43554c

abbrev pub ulog : ℕ
ulog = 0x554c4f47

-- The header, and whether the microcontroller is past its loop.
pub record Shared : Type 0 where
  pub logbuf : MculogBuffer
  pub greeted : Bool

-- One look of `main` at the flag.
unfoldable pub greet : Shared → Shared
greet s =
    let met : Shared = record { logbuf = record (s.logbuf) { init_flag = ulog }; greeted = true } in
    if not s.greeted && s.logbuf.init_flag == mcul then met else s

unfoldable pub greets : ℕ → Shared → Shared
unfolding greet
greets zero s = s
greets (suc n) s = greets n (greet s)

-- The kernel's loop from its `i`-th look on, `looks i` being the microcontroller's looks before it and
-- `timeout` the counter; with fuel, none if it is used up. The result is none for success.
unfoldable pub mculog_wait : ℕ → ℤ → (ℕ → ℕ) → ℕ → Shared → Option (Option ℕ × Shared)
unfolding greets
mculog_wait zero timeout looks i s = none
mculog_wait (suc fuel) timeout looks i s =
    let s' = greets (looks i) s in
    let again = mculog_wait fuel (timeout +ℤ pos 1) looks (suc i) s' in
    if s'.logbuf.init_flag == ulog
    then some (none, s')
    else if ltb_ℤ (pos 100) timeout
    then some (some enodev, s')
    else again

-- The looks that the kernel takes at most, for the value that the counter starts with.
abbrev pub patience : ℤ → ℕ
patience (pos t) = suc (101 - t)
patience (negsuc t) = 103 + t

-- What the kernel answers to the calls of the probe: the node, the region's size, the two properties,
-- whether devm_memremap maps the region, and the registration; and what `timeout` holds, which nothing sets.
pub record NodeAnswers : Type 0 where
  pub node : Bool
  pub region : Option ℕ
  pub shmem_offset : Option ℕ
  pub shmem_length : Option ℕ
  pub mapped : Bool
  pub misc_register : Option ℕ
  pub timeout : ℤ

-- Behind the checks.
unfoldable pub mculog_start : ℤ → Option ℕ → ℕ → (ℕ → ℕ) → Shared → Option ℕ × Shared
unfolding mculog_wait mculog_init
mculog_start timeout registered len looks s =
    let s' : Shared = record s { logbuf = mculog_init len s.logbuf } in
    elim (mculog_wait (patience timeout) timeout looks 0 s') [
      | none ↦ (some enodev, s')
      | some (ret, met) ↦ elim ret [ none ↦ (registered, met) | some e ↦ (some e, met) ]
    ]

-- None for a fault: the answer of devm_memremap is not tested, and where it is an error, the first
-- write goes through it.
unfoldable pub mculog_probe : NodeAnswers → (ℕ → ℕ) → Shared → Option (Option ℕ × Shared)
unfolding mculog_start
mculog_probe f looks s = if not f.node then some (some enodev, s) else elim f.region [
  | none ↦ some (some einval, s)
  | some size ↦ elim f.shmem_offset [
    | none ↦ some (some einval, s)
    | some offset ↦ elim f.shmem_length [
      | none ↦ some (some einval, s)
      | some len ↦
          if region_refused size offset len
          then some (some einval, s)
          else if f.mapped
          then some (mculog_start f.timeout f.misc_register len looks s)
          else none
    ]
  ]
]

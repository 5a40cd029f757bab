-- ===== src/Mculog/Examples.antt =====
-- The log at concrete inputs: a ring of 8 bytes.
use picocalc_ubuntu_kernel.Platform.{enodev}
use picocalc_ubuntu_kernel.Mculog.Fifo.{mcu_write_appends, mculog_read_takes, Taken}
use picocalc_ubuntu_kernel.Mculog.Handshake.{Shared, NodeAnswers, mculog_wait, mculog_probe, mcul}
use picocalc_ubuntu_kernel.Mculog.Handshake.Greeting.{handshake_ends, second_probe_fails, met}
use picocalc_ubuntu_kernel.Mculog.Ring.{Valid, pending}
use picocalc_ubuntu_kernel.Mculog.{MculogBuffer, mcu_write, pos, true, min, free_space, some, false}
use picocalc_ubuntu_kernel.Prelude.{
  arith, ◌+◌, ◌≡◌, ◌++◌, tabulate, none, ℕ, ◌≢◌, if◌then◌else◌, refl, ◌<◌, ◌==◌, Option, ◌⊎◌,
}

abbrev ring : MculogBuffer
ring = record { init_flag = 0; max_size = 8; head = 2; tail = 6; buf = λ i. 100 + i }

ring-Valid : Valid ring
ring-Valid = ground arith

mcu_write_appends_example :
    let (r, lb') = mcu_write 1 (λ i. i) (pos 5) ring in
    let n = min 5 (free_space ring) in
    (r ≡ some n) × Valid lb' × (pending lb' ≡ pending ring ++ tabulate n (λ i. i))
mcu_write_appends_example =
    mcu_write_appends 1 (λ i. i) 5 ring (ground arith) (ground arith) ring-Valid

mculog_read_takes_example : Taken 3 true false ring
mculog_read_takes_example = mculog_read_takes 3 true false ring ring-Valid

-- The microcontroller looks twice before the kernel's fourth look, and the counter starts at 7.
abbrev greeting : Shared
greeting = record { logbuf = record ring { init_flag = mcul }; greeted = false }

abbrev fourth : ℕ → ℕ
fourth i = if i == 3 then 2 else 0

handshake_ends_example :
    let wait = mculog_wait 95 (pos 7) fourth 0 greeting in
    (false ≡ false → (k : ℕ) → k < 95 → fourth k ≢ 0 → wait ≡ some (none, met greeting))
    × (false ≡ false → ((k : ℕ) → k < 95 → fourth k ≡ 0) → wait ≡ some (some enodev, greeting))
    × (false ≡ true → wait ≡ some (some enodev, greeting))
handshake_ends_example = handshake_ends (pos 7) fourth greeting refl

abbrev node : NodeAnswers
node = record {
  node = true;
  region = some 4096;
  shmem_offset = some 32;
  shmem_length = some 1024;
  mapped = true;
  misc_register = none;
  timeout = pos 0;
}

second_probe_fails_example :
    ((ret : Option ℕ) × (s' : Shared) × (mculog_probe node fourth
          (record greeting { greeted = true })
        ≡ some (ret, s'))
      × (ret ≢ none)
      × (s'.greeted ≡ true))
    ⊎ ((mculog_probe node fourth (record greeting { greeted = true }) ≡ none) × (true ≡ false))
second_probe_fails_example =
    second_probe_fails node fourth (record greeting { greeted = true }) refl

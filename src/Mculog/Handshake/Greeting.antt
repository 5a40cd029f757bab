-- ===== src/Mculog/Handshake/Greeting.antt =====
-- How the handshake of mculog_probe ends.
use picocalc_ubuntu_kernel.Mculog.{mculog_init, einval, region_refused}
use picocalc_ubuntu_kernel.Platform.{enodev}
use picocalc_ubuntu_kernel.Prelude.Int.{◌+ℤ◌}
use picocalc_ubuntu_kernel.Prelude.{
  true, ℕ, ◌≡◌, false, suc, refl, zero, arith, ap, some, ◌≢◌, if◌then◌else◌, none, ◌∙◌, not, ◌&&◌,
  ◌==◌, Option, ◌<◌, ◌+◌, ℕ_discrete, Option-cases, inl, inr, ◌⊎◌, Bool-cases, Bool,
}
use picocalc_ubuntu_kernel.Mculog.Handshake.{
  Shared, greet, greets, mculog_wait, patience, mcul, ulog, ℤ, ltb_ℤ, pos, negsuc, mculog_probe,
  mculog_start, NodeAnswers,
}

-- The microcontroller is still in its loop, and the kernel has written the flag.
pub record Waiting (s : Shared) : Type 0 where
  pub flag : s.logbuf.init_flag ≡ mcul
  pub new : s.greeted ≡ false

abbrev pub met : Shared → Shared
met s = record { logbuf = record (s.logbuf) { init_flag = ulog }; greeted = true }

greet_again : (s : Shared) → s.greeted ≡ true → greet s ≡ s
unfolding greet
greet_again s e = ap (λ b. if not b && s.logbuf.init_flag == mcul then met s else s) e

greet_meets : (s : Shared) → Waiting s → greet s ≡ met s
unfolding greet
greet_meets s w =
    ap (λ b. if not b && s.logbuf.init_flag == mcul then met s else s) w.new
    ∙ ap (λ f. if f == mcul then met s else s) w.flag

passed_stays : (n : ℕ) (s : Shared) → s.greeted ≡ true → greets n s ≡ s
unfolding greets
passed_stays zero s e = refl
passed_stays (suc n) s e = ap (greets n) (greet_again s e) ∙ passed_stays n s e

greets_meets : (n : ℕ) (s : Shared) → Waiting s → greets (suc n) s ≡ met s
unfolding greets
greets_meets n s w = ap (greets n) (greet_meets s w) ∙ passed_stays n (met s) refl

-- The counter, one look later.
last_look : (t : ℤ) → patience t ≡ 1 → ltb_ℤ (pos 100) t ≡ true
last_look (pos t) e = ground (arith, e)
last_look (negsuc t) e = ground (arith, e)

more_looks :
    (t : ℤ) (n : ℕ)
    → patience t ≡ suc (suc n)
    → (ltb_ℤ (pos 100) t ≡ false) × (patience (t +ℤ pos 1) ≡ suc n)
unfolding ◌+ℤ◌
more_looks (pos t) n e = ground (arith, e)
more_looks (negsuc t) n e = ground (arith, e)

nonzero : (n : ℕ) → n ≢ 0 → (m : ℕ) × (n ≡ suc m)
nonzero zero h = absurd (h refl)
nonzero (suc m) h = (m, refl)

module _ (looks : ℕ → ℕ) where
  -- A round, by the state that the microcontroller leaves for it.
  after : ℕ → ℕ → ℤ → Shared → Option (Option ℕ × Shared)
  after n i t s' =
      if s'.logbuf.init_flag == ulog
      then some (none, s')
      else if ltb_ℤ (pos 100) t
      then some (some enodev, s')
      else mculog_wait n (t +ℤ pos 1) looks (suc i) s'

  wait_round :
      (n i : ℕ) (t : ℤ) (s s' : Shared)
      → greets (looks i) s ≡ s'
      → mculog_wait (suc n) t looks i s ≡ after n i t s'
  unfolding mculog_wait after
  wait_round n i t s s' e = ap (after n i t) e

  -- A round that finds the microcontroller's flag, and one that still finds the kernel's own.
  round_found :
      (n i : ℕ) (t : ℤ) (s : Shared)
      → Waiting s
      → looks i ≢ 0
      → mculog_wait (suc n) t looks i s ≡ some (none, met s)
  unfolding after
  round_found n i t s w some_look =
      let (m, e) = nonzero (looks i) some_look in
      wait_round n i t s (met s) (ap (λ l. greets l s) e ∙ greets_meets m s w)

  round_same :
      (n i : ℕ) (t : ℤ) (s : Shared)
      → s.logbuf.init_flag ≡ mcul
      → greets (looks i) s ≡ s
      → mculog_wait (suc n) t looks i s ≡ (
          if ltb_ℤ (pos 100) t
          then some (some enodev, s)
          else mculog_wait n (t +ℤ pos 1) looks (suc i) s)
  unfolding after
  round_same n i t s flag same =
      let rest : Option (Option ℕ × Shared) =
        if ltb_ℤ (pos 100) t
        then some (some enodev, s)
        else mculog_wait n (t +ℤ pos 1) looks (suc i) s in
      wait_round n i t s s same ∙ ap (λ f. if f == ulog then some (none, s) else rest) flag

  -- The microcontroller looks at the flag before the kernel's look `i + k`, and not before.
  wait_meets :
      (n k i : ℕ) (t : ℤ) (s : Shared)
      → Waiting s
      → patience t ≡ n
      → k < n
      → looks (i + k) ≢ 0
      → mculog_wait n t looks i s ≡ some (none, met s)
  unfolding greets
  wait_meets zero k i t s w e small look = absurd (omega (arith, small))
  wait_meets (suc n) zero i t s w e small look =
      round_found n i t s w (λ z. look (ap looks (omega arith) ∙ z))
  wait_meets (suc zero) (suc k) i t s w e small look = absurd (omega (arith, small))
  wait_meets (suc (suc n)) (suc k) i t s w e small look = elim (ℕ_discrete (looks i) 0) [
    | no h ↦ round_found (suc n) i t s w h
    | yes z ↦
        let (early, next) = more_looks t n e in
        round_same (suc n) i t s w.flag (ap (λ l. greets l s) z)
        ∙ ap
            (λ b.
              if b then some (some enodev, s) else mculog_wait (suc n) (t +ℤ pos 1) looks (suc i) s)
            early
        ∙ wait_meets (suc n) k (suc i) (t +ℤ pos 1) s w next (omega (arith, small))
            (λ z'. look (ap looks (omega arith) ∙ z'))
  ]

  -- No look changes the header.
  wait_fails :
      (n i : ℕ) (t : ℤ) (s : Shared)
      → s.logbuf.init_flag ≡ mcul
      → patience t ≡ n
      → ((k : ℕ) → k < n → greets (looks (i + k)) s ≡ s)
      → mculog_wait n t looks i s ≡ some (some enodev, s)
  wait_fails zero i (pos t) s flag e same = absurd (omega (arith, e))
  wait_fails zero i (negsuc t) s flag e same = absurd (omega (arith, e))
  wait_fails (suc zero) i t s flag e same =
      round_same 0 i t s flag (ap (λ j. greets (looks j) s) (omega arith) ∙ same 0 (omega arith))
      ∙ ap (λ b. if b then some (some enodev, s) else mculog_wait 0 (t +ℤ pos 1) looks (suc i) s)
          (last_look t e)
  wait_fails (suc (suc n)) i t s flag e same =
      let (early, next) = more_looks t n e in
      round_same (suc n) i t s flag
        (ap (λ j. greets (looks j) s) (omega arith) ∙ same 0 (omega arith))
      ∙ ap
          (λ b.
            if b then some (some enodev, s) else mculog_wait (suc n) (t +ℤ pos 1) looks (suc i) s)
          early
      ∙ wait_fails (suc n) (suc i) (t +ℤ pos 1) s flag next
          (λ k h. ap (λ j. greets (looks j) s) (omega arith) ∙ same (suc k) (omega (arith, h)))

-- The kernel has written its flag. When the microcontroller is still in its loop and looks at the flag
-- at least once before one of the kernel's looks, the loop of the probe ends with success and the
-- microcontroller's flag; when it does not look, or is past its loop from an earlier start, the loop
-- ends with -ENODEV and the header as it was. The loop takes at most the looks that the counter's first
-- value leaves, whatever that value is.
pub handshake_ends :
    (timeout : ℤ) (looks : ℕ → ℕ) (s : Shared)
    → s.logbuf.init_flag ≡ mcul
    → let wait = mculog_wait (patience timeout) timeout looks 0 s in
      (s.greeted ≡ false → (k : ℕ) → k < patience timeout → looks k ≢ 0 → wait ≡ some (none, met s))
      × (s.greeted ≡ false
          → ((k : ℕ) → k < patience timeout → looks k ≡ 0)
          → wait ≡ some (some enodev, s))
      × (s.greeted ≡ true → wait ≡ some (some enodev, s))
unfolding greets
handshake_ends timeout looks s flag = (
  λ new k small look.
      wait_meets looks (patience timeout) k 0 timeout s (record { flag = flag; new = new }) refl
        small (λ z. look (ap looks (omega arith) ∙ z)),
  λ new quiet.
      wait_fails looks (patience timeout) 0 timeout s flag refl
        (λ k h. ap (λ l. greets l s) (ap looks (omega arith) ∙ quiet k h)),
  λ old.
      wait_fails looks (patience timeout) 0 timeout s flag refl
        (λ k h. passed_stays (looks (0 + k)) s old),
)

again_fails :
    (timeout : ℤ) (registered : Option ℕ) (len : ℕ) (looks : ℕ → ℕ) (s : Shared)
    → s.greeted ≡ true
    → let (ret, s') = mculog_start timeout registered len looks s in
      (ret ≡ some enodev) × (s'.greeted ≡ true)
unfolding mculog_start mculog_init
again_fails timeout registered len looks s old =
    let s1 : Shared = record s { logbuf = mculog_init len s.logbuf } in
    let (_, _, third) = handshake_ends timeout looks s1 refl in ground (arith, third old, old)

-- The outcomes left to a probe once the microcontroller is past its loop.
Refused : Option (Option ℕ × Shared) → Bool → Type 0
Refused r mapped =
    ((ret : Option ℕ) × (s' : Shared) × (r ≡ some (ret, s')) × (ret ≢ none) × (s'.greeted ≡ true))
    ⊎ ((r ≡ none) × (mapped ≡ false))

behind_checks :
    (f : NodeAnswers) (size offset len : ℕ) (looks : ℕ → ℕ) (s : Shared)
    → s.greeted ≡ true
    → Refused
        (if region_refused size offset len
          then some (some einval, s)
          else if f.mapped
          then some (mculog_start f.timeout f.misc_register len looks s)
          else none)
        f.mapped
unfolding Refused
behind_checks f size offset len looks s old =
    let started = mculog_start f.timeout f.misc_register len looks s in
    let (fails, stays) = again_fails f.timeout f.misc_register len looks s old in
    elim (Bool-cases (region_refused size offset len)) [
      | inl r ↦ inl (some einval, s, rw r refl, ground arith, old)
      | inr r ↦ rw r (elim (Bool-cases f.mapped) [
        | inr m ↦ rw m (inr (refl, refl))
        | inl m ↦ rw m (inl (started.0, started.1, refl, ground (arith, fails), stays))
      ])
    ]

-- Once the microcontroller is past its loop, which it enters only when it starts, no probe succeeds,
-- whatever the kernel answers and whatever the microcontroller does: the probe returns an error and the
-- microcontroller stays past its loop, or the region was not mapped and the probe faults.
pub second_probe_fails :
    (f : NodeAnswers) (looks : ℕ → ℕ) (s : Shared)
    → s.greeted ≡ true
    → ((ret : Option ℕ) × (s' : Shared) × (mculog_probe f looks s ≡ some (ret, s'))
        × (ret ≢ none)
        × (s'.greeted ≡ true))
      ⊎ ((mculog_probe f looks s ≡ none) × (f.mapped ≡ false))
unfolding mculog_probe Refused
second_probe_fails f looks s old = elim (Bool-cases f.node) [
  | inr gone ↦ inl (some enodev, s, rw gone refl, ground arith, old)
  | inl node ↦ rw node (elim (Option-cases f.region) [
    | inl e ↦ inl (some einval, s, rw e refl, ground arith, old)
    | inr (size, e) ↦ rw e (elim (Option-cases f.shmem_offset) [
      | inl e1 ↦ inl (some einval, s, rw e1 refl, ground arith, old)
      | inr (offset, e1) ↦ rw e1 (elim (Option-cases f.shmem_length) [
        | inl e2 ↦ inl (some einval, s, rw e2 refl, ground arith, old)
        | inr (len, e2) ↦ rw e2 (behind_checks f size offset len looks s old)
      ])
    ])
  ])
]

-- ===== src/Kbd/Dispatch/Release.antt =====
-- No key stays down in Linux when every physical key is up: by what the driver has seen (AllUp), and by
-- the events themselves (held_by).
use picocalc_ubuntu_kernel.Kbd.Dispatch.Flags.{key_dispatch-Flags}
use picocalc_ubuntu_kernel.Kbd.Dispatch.Frame.{
  has_slot, special-slots, other_keys_kept, released-slot,
}
use picocalc_ubuntu_kernel.Prelude.{
  ℕ, ◌≡◌, ◌∙◌, ◌≢◌, ◌⊎◌, inl, false, List, [], ◌∷◌, All, arith, Bool, Bool-cases, if◌then◌else◌,
  inr, refl, ℕ_discrete, subst, ◌==◌, ==_self, sym, ==_ne,
}
use picocalc_ubuntu_kernel.Input.{
  Keycode, Keycode-discrete, reserved, key_capslock, key_leftshift, key_rightshift, key_leftalt,
  key_leftctrl, is_down,
}
use picocalc_ubuntu_kernel.Platform.{Platform}
use picocalc_ubuntu_kernel.Kbd.Context.{World, emit_none}
use picocalc_ubuntu_kernel.Kbd.Dispatch.{
  run_events, key_dispatch, key_state_pressed, key_state_hold, key_state_released, pk_none,
  pk_lshift, pk_rshift, pk_lalt, pk_lctrl,
}
use picocalc_ubuntu_kernel.Kbd.Dispatch.Invariant.{Inv}
use picocalc_ubuntu_kernel.Kbd.Dispatch.Preserve.{key_dispatch-Inv}

-- A state that the firmware sends.
abbrev pub IsKeyEvent : ℕ → Type 0
IsKeyEvent state =
    (state ≡ key_state_pressed) ⊎ (state ≡ key_state_hold) ⊎ (state ≡ key_state_released)

-- Every physical key is up, as the driver sees it.
pub record AllUp {D : Type 0} (w : World D) : Type 0 where
  pub slots : (q : ℕ) → (w.ctx.key_state q).emit_mode ≡ emit_none
  pub shl : w.ctx.phy_shl ≡ false
  pub shr : w.ctx.phy_shr ≡ false
  pub alt : w.ctx.phy_alt ≡ false
  pub ctrl : w.ctx.phy_ctrl ≡ false

module _ {D : Type 0} where
  pub run_events-Inv :
      (p : Platform D) (es : List (ℕ × ℕ)) (w : World D)
      → All (λ e. IsKeyEvent e.1) es
      → Inv w
      → Inv (run_events p es w)
  unfolding run_events
  run_events-Inv p [] w h i = i
  run_events-Inv p ((q, state) ∷ es) w h i =
      run_events-Inv p es (key_dispatch p q state w) h.1 (key_dispatch-Inv p q state w h.0 i)

  pub AllUp-clear :
      (w : World D) (k : Keycode)
      → Inv w
      → AllUp w
      → k ≢ reserved
      → k ≢ key_capslock
      → is_down k w.out ≡ false
  AllUp-clear w k i up code caps = elim (Keycode-discrete k key_leftshift) [
    | yes e ↦ rw e (i.shl ∙ up.shl)
    | no n1 ↦ elim (Keycode-discrete k key_leftalt) [
      | yes e ↦ rw e (i.alt ∙ up.alt)
      | no n2 ↦ elim (Keycode-discrete k key_leftctrl) [
        | yes e ↦ rw e (i.ctrl ∙ up.ctrl)
        | no n3 ↦ elim (Keycode-discrete k key_rightshift) [
          | yes e ↦ rw e (ground (arith, i.shr, i.supplement, up.shr))
          | no n4 ↦ i.free k (caps, n1, n4, n2, n3) code (λ q. inl (up.slots q))
        ]
      ]
    ]
  ]

-- The keys after an event, by the event: down for a press, up for a release.
abbrev pub after : ℕ → ℕ → (ℕ → Bool) → ℕ → Bool
after phys state down q =
    if phys == q
    then (if state == key_state_hold then down q else state == key_state_pressed)
    else down q

-- The keys that are down after a run of events, by the events and the keys that were down before.
unfoldable pub held_by : List (ℕ × ℕ) → (ℕ → Bool) → ℕ → Bool
held_by [] down = down
held_by ((phys, state) ∷ es) down = held_by es (after phys state down)

has_slot-none : has_slot pk_none ≡ false
unfolding has_slot
has_slot-none = refl

-- The driver holds no key that is up by the events. A key without a slot keeps an empty one.
pub record AsHeard {D : Type 0} (down : ℕ → Bool) (w : World D) : Type 0 where
  pub slots : (q : ℕ) → down q ≡ false → (w.ctx.key_state q).emit_mode ≡ emit_none
  pub slotless : (q : ℕ) → has_slot q ≡ false → (w.ctx.key_state q).emit_mode ≡ emit_none
  pub shl : down pk_lshift ≡ false → w.ctx.phy_shl ≡ false
  pub shr : down pk_rshift ≡ false → w.ctx.phy_shr ≡ false
  pub alt : down pk_lalt ≡ false → w.ctx.phy_alt ≡ false
  pub ctrl : down pk_lctrl ≡ false → w.ctx.phy_ctrl ≡ false

module _ {D : Type 0} (p : Platform D) where
  hold_ignored : (phys : ℕ) (w : World D) → key_dispatch p phys key_state_hold w ≡ w
  unfolding key_dispatch
  hold_ignored phys w = ground arith

  -- The slot of the event's own key.
  own_slot :
      (phys state : ℕ) (down : ℕ → Bool) (w : World D)
      → (state ≡ key_state_pressed) ⊎ (state ≡ key_state_released)
      → AsHeard down w
      → ((after phys state down phys ≡ false) ⊎ (has_slot phys ≡ false))
      → ((key_dispatch p phys state w).ctx.key_state phys).emit_mode ≡ emit_none
  own_slot phys state down w e a up = elim (Bool-cases (has_slot phys)) [
    | inr without ↦ rw (special-slots p phys state w without) (a.slotless phys without)
    | inl with_one ↦ elim e [
      | inl press ↦ absurd (ground (arith, press, up, with_one, ==_self phys))
      | inr release ↦ rw release (released-slot p phys w with_one)
    ]
  ]

  slot-AsHeard :
      (phys state : ℕ) (down : ℕ → Bool) (w : World D)
      → (state ≡ key_state_pressed) ⊎ (state ≡ key_state_released)
      → AsHeard down w
      → (q : ℕ) → ((after phys state down q ≡ false) ⊎ (has_slot q ≡ false))
      → ((key_dispatch p phys state w).ctx.key_state q).emit_mode ≡ emit_none
  slot-AsHeard phys state down w e a q up = elim (ℕ_discrete phys q) [
    | yes same ↦
        subst
          (λ r.
            ((after phys state down r ≡ false) ⊎ (has_slot r ≡ false))
            → ((key_dispatch p phys state w).ctx.key_state r).emit_mode ≡ emit_none)
          same (own_slot phys state down w e a) up
    | no ne ↦ rw (other_keys_kept p phys state q w ne) (elim up [
      | inl u ↦ a.slots q (ground (arith, u, ==_ne phys q ne))
      | inr n ↦ a.slotless q n
    ])
  ]

  edge-AsHeard :
      (phys state : ℕ) (down : ℕ → Bool) (w : World D)
      → (state ≡ key_state_pressed) ⊎ (state ≡ key_state_released)
      → AsHeard down w
      → AsHeard (after phys state down) (key_dispatch p phys state w)
  edge-AsHeard phys state down w e a =
      let f = key_dispatch-Flags p phys state w (ground (arith, e)) in
      record {
        slots = λ q u. slot-AsHeard phys state down w e a q (inl u);
        slotless = λ q n. slot-AsHeard phys state down w e a q (inr n);
        shl = λ u. ground (arith, u, e, f.shl, a.shl);
        shr = λ u. ground (arith, u, e, f.shr, a.shr);
        alt = λ u. ground (arith, u, e, f.alt, a.alt);
        ctrl = λ u. ground (arith, u, e, f.ctrl, a.ctrl);
      }

  hold-AsHeard :
      (phys : ℕ) (down : ℕ → Bool) (w : World D)
      → AsHeard down w
      → AsHeard (after phys key_state_hold down) (key_dispatch p phys key_state_hold w)
  hold-AsHeard phys down w a = rw (hold_ignored phys w) record {
    slots = λ q u. a.slots q (ground (arith, u));
    slotless = a.slotless;
    shl = λ u. a.shl (ground (arith, u));
    shr = λ u. a.shr (ground (arith, u));
    alt = λ u. a.alt (ground (arith, u));
    ctrl = λ u. a.ctrl (ground (arith, u));
  }

  run_events-AsHeard :
      (es : List (ℕ × ℕ)) (down : ℕ → Bool) (w : World D)
      → All (λ e. IsKeyEvent e.1) es
      → AsHeard down w
      → AsHeard (held_by es down) (run_events p es w)
  unfolding run_events held_by
  run_events-AsHeard [] down w h a = a
  run_events-AsHeard ((phys, state) ∷ es) down w (e, h) a =
      run_events-AsHeard es (after phys state down) (key_dispatch p phys state w) h (elim e [
        | inl press ↦ edge-AsHeard phys state down w (inl press) a
        | inr (inl hold) ↦
            subst (λ st. AsHeard (after phys st down) (key_dispatch p phys st w)) (sym hold)
              (hold-AsHeard phys down w a)
        | inr (inr release) ↦ edge-AsHeard phys state down w (inr release) a
      ])

  -- From a state of the invariant with every key up, whatever presses, holds and releases come, in any
  -- order and in any mode: when the last press of each key was followed by a release of that key (a
  -- hold is neither, and the events of scancodes without a key do not count), Linux holds no key down
  -- but perhaps caps lock, neither a key nor a mouse button nor a modifier.
  pub no_key_stuck :
      (es : List (ℕ × ℕ)) (w : World D) (k : Keycode)
      → Inv w
      → AllUp w
      → All (λ e. IsKeyEvent e.1) es
      → ((q : ℕ) → pk_none ≢ q → held_by es (λ r. false) q ≡ false)
      → k ≢ reserved
      → k ≢ key_capslock
      → is_down k (run_events p es w).out ≡ false
  no_key_stuck es w k i up h released code caps =
      let a =
        run_events-AsHeard es (λ r. false) w h
          record {
            slots = λ q u. up.slots q;
            slotless = λ q u. up.slots q;
            shl = λ u. up.shl;
            shr = λ u. up.shr;
            alt = λ u. up.alt;
            ctrl = λ u. up.ctrl;
          } in
      AllUp-clear (run_events p es w) k (run_events-Inv p es w h i)
        record {
          slots = λ q. elim (ℕ_discrete pk_none q) [
            | yes e ↦
                subst (λ r. ((run_events p es w).ctx.key_state r).emit_mode ≡ emit_none) e
                  (a.slotless pk_none has_slot-none)
            | no ne ↦ a.slots q (released q ne)
          ];
          shl = a.shl (released pk_lshift (ground arith));
          shr = a.shr (released pk_rshift (ground arith));
          alt = a.alt (released pk_lalt (ground arith));
          ctrl = a.ctrl (released pk_lctrl (ground arith));
        }
        code caps

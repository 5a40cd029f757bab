-- ===== src/Kbd/Dispatch/Invariant.antt =====
-- The state machine against the keys that Linux holds down.
use picocalc_ubuntu_kernel.Prelude.{
  refl, ==_self, ==_ne, ℕ_discrete, subst, if_pos, if_neg, update, ℕ, ◌≡◌, ◌∙◌, ◌≢◌, ◌⊎◌, true,
  false, arith, inl, inr,
}
use picocalc_ubuntu_kernel.Input.{
  Keycode, reserved, key_leftshift, key_rightshift, key_leftalt, key_leftctrl, btn_left, btn_right,
  is_down, report_key, Keycode-discrete,
}
use picocalc_ubuntu_kernel.Kbd.Phys.{pk_lbracket, pk_rbracket}
use picocalc_ubuntu_kernel.Kbd.Context.{
  World, KeySlot, EmitMode, emit_none, emit_mouse, emit, set_slot,
}
use picocalc_ubuntu_kernel.Kbd.Tables.Facts.{IsPlain}
use picocalc_ubuntu_kernel.Kbd.Dispatch.Quiet.{Quiet}

-- The code that a slot keeps is one that an ordinary key reports, and a slot in mouse mode with a code
-- is a bracket's, with its button.
pub record SlotOk (q : ℕ) (s : KeySlot) : Type 0 where
  pub plain : IsPlain s.keycode
  pub mouse :
      s.emit_mode ≡ emit_mouse
      → (s.keycode ≡ reserved)
        ⊎ ((q ≡ pk_lbracket) × (s.keycode ≡ btn_left))
        ⊎ ((q ≡ pk_rbracket) × (s.keycode ≡ btn_right))

-- The slot is not holding the code down.
abbrev pub IsFree : Keycode → KeySlot → Type 0
IsFree k s = (s.emit_mode ≡ emit_none) ⊎ (s.keycode ≢ k)

pub record Inv {D : Type 0} (w : World D) : Type 0 where
  pub slots : (q : ℕ) → SlotOk q (w.ctx.key_state q)
  pub shl : is_down key_leftshift w.out ≡ w.ctx.phy_shl
  pub alt : is_down key_leftalt w.out ≡ w.ctx.phy_alt
  pub ctrl : is_down key_leftctrl w.out ≡ w.ctx.phy_ctrl
  pub shr : is_down key_rightshift w.out ≡ w.ctx.rshift_reported
  pub supplement : w.ctx.rshift_reported ≡ true → w.ctx.phy_shr ≡ true
  pub free :
      (k : Keycode)
      → IsPlain k
      → k ≢ reserved
      → ((q : ℕ) → IsFree k (w.ctx.key_state q))
      → is_down k w.out ≡ false

reserved-SlotOk : (q : ℕ) (m : EmitMode) → SlotOk q (record { emit_mode = m; keycode = reserved })
reserved-SlotOk q m = record { plain = ground arith; mouse = λ e. inl refl }

-- What is free in every slot after one slot was written was free in every slot before.
IsFree-before :
    (k : Keycode) (phys : ℕ) (new : KeySlot) (slots : ℕ → KeySlot)
    → IsFree k (slots phys)
    → ((q : ℕ) → IsFree k (update slots phys new q))
    → (q : ℕ) → IsFree k (slots q)
IsFree-before k phys new slots here f q = elim (ℕ_discrete phys q) [
  | yes e ↦ subst (λ r. IsFree k (slots r)) e here
  | no ne ↦ (rw (==_ne phys q ne) at (f q))
]

module _ {D : Type 0} where
  pub Quiet-Inv : {w w' : World D} → Quiet w w' → Inv w → Inv w'
  Quiet-Inv {w} {w'} s i = record {
    slots = λ q. rw s.slots (i.slots q);
    shl = ground (arith, s.held key_leftshift);
    alt = ground (arith, s.held key_leftalt);
    ctrl = ground (arith, s.held key_leftctrl);
    shr = ground (arith, s.held key_rightshift);
    supplement = ground arith;
    free = λ k h n f. s.held k ∙ i.free k h n (λ q. (rw s.slots at (f q)));
  }

  -- A press through `press_as`, into a slot that is not in use.
  pub pressed-Inv :
      (m : EmitMode) (kc : Keycode) (phys : ℕ) (w : World D)
      → (w.ctx.key_state phys).emit_mode ≡ emit_none
      → m ≢ emit_none
      → SlotOk phys (record { emit_mode = m; keycode = kc })
      → Inv w
      → Inv (emit (report_key kc true) (set_slot phys m kc w))
  unfolding is_down
  pressed-Inv m kc phys w idle used ok i = record {
    slots = λ q. ground (arith, i.slots q);
    shl = ground (arith, ok.plain, i.shl);
    alt = ground (arith, ok.plain, i.alt);
    ctrl = ground (arith, ok.plain, i.ctrl);
    shr = ground (arith, ok.plain, i.shr);
    supplement = i.supplement;
    free = λ k h n f.
        rw (if_neg _ (taken k (f phys)))
          (i.free k h n (IsFree-before k phys _ w.ctx.key_state (inl idle) f));
  }
    where
      pressed : KeySlot
      pressed = record { emit_mode = m; keycode = kc }

      taken : (k : Keycode) → IsFree k (update w.ctx.key_state phys pressed phys) → kc ≢ k
      taken k f = elim (rw (==_self phys) at f) [ inl e ↦ absurd (used e) | inr ne ↦ ne ]

  pub dropped-Inv :
      (phys : ℕ) (w : World D)
      → ((w.ctx.key_state phys).emit_mode ≡ emit_none) ⊎ ((w.ctx.key_state phys).keycode ≡ reserved)
      → Inv w
      → Inv (set_slot phys emit_none reserved w)
  dropped-Inv phys w idle i = record {
    slots = λ q. ground (arith, i.slots q, reserved-SlotOk q emit_none);
    shl = i.shl;
    alt = i.alt;
    ctrl = i.ctrl;
    shr = i.shr;
    supplement = i.supplement;
    free = λ k h n f. i.free k h n (IsFree-before k phys _ w.ctx.key_state (ground arith) f);
  }

  -- A press that reports no code.
  pub silent-Inv :
      (m : EmitMode) (phys : ℕ) (w : World D)
      → (w.ctx.key_state phys).emit_mode ≡ emit_none
      → Inv w
      → Inv (set_slot phys m reserved w)
  silent-Inv m phys w idle i = record {
    slots = λ q. ground (arith, i.slots q, reserved-SlotOk q m);
    shl = i.shl;
    alt = i.alt;
    ctrl = i.ctrl;
    shr = i.shr;
    supplement = i.supplement;
    free = λ k h n f. i.free k h n (IsFree-before k phys _ w.ctx.key_state (inl idle) f);
  }

  pub cleared-Inv :
      (kc : Keycode) (phys : ℕ) (w : World D)
      → IsPlain kc
      → ((w.ctx.key_state phys).keycode ≡ kc) ⊎ ((w.ctx.key_state phys).keycode ≡ reserved)
      → Inv w
      → Inv (set_slot phys emit_none reserved (emit (report_key kc false) w))
  unfolding is_down
  cleared-Inv kc phys w ok held i = record {
    slots = λ q. ground (arith, i.slots q, reserved-SlotOk q emit_none);
    shl = ground (arith, i.shl);
    alt = ground (arith, i.alt);
    ctrl = ground (arith, i.ctrl);
    shr = ground (arith, i.shr);
    supplement = i.supplement;
    free = λ k h n f. elim (Keycode-discrete kc k) [
      | yes e ↦ rw (if_pos _ e)
      | no ne ↦
          rw (if_neg _ ne)
            (i.free k h n (IsFree-before k phys _ w.ctx.key_state (inr (not_held k ne n)) f))
    ];
  }
    where
      not_held : (k : Keycode) → kc ≢ k → k ≢ reserved → (w.ctx.key_state phys).keycode ≢ k
      not_held k ne n = ground arith

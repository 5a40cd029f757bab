-- ===== src/Kbd/Dispatch/Releases.antt =====
-- The release of a key that is not a modifier keeps the invariant.
use picocalc_ubuntu_kernel.Prelude.{
  ℕ, ◌≡◌, refl, inl, inr, Bool, true, false, ◌&&◌, ◌==◌, if◌then◌else◌, Bool-cases, arith, subst,
  ==_ne,
}
use picocalc_ubuntu_kernel.Input.{Keycode, reserved, btn_left, btn_right, report_key}
use picocalc_ubuntu_kernel.Platform.{Platform}
use picocalc_ubuntu_kernel.Kbd.Phys.{pk_lbracket, pk_rbracket}
use picocalc_ubuntu_kernel.Kbd.Context.{World, EmitMode, emit_none, emit_mouse, emit, set_slot}
use picocalc_ubuntu_kernel.Kbd.Tables.Facts.{IsPlain}
use picocalc_ubuntu_kernel.Kbd.Dispatch.{
  release_slot, is_mouse_key, is_arrow, key_release, mouse_stop_move, arrow_dir,
}
use picocalc_ubuntu_kernel.Kbd.Dispatch.Quiet.{Quiet, stamp-Quiet, mouse_stop_move-Quiet}
use picocalc_ubuntu_kernel.Kbd.Dispatch.Invariant.{Inv, Quiet-Inv, dropped-Inv, cleared-Inv}

module _ {D : Type 0} where
  release_buttons-Inv :
      (phys : ℕ) (w : World D)
      → (w.ctx.key_state phys).emit_mode ≡ emit_mouse
      → Inv w
      → let w2 = if phys == pk_lbracket then emit (report_key btn_left false) w else w in
        Inv (
          set_slot phys emit_none reserved
            (if phys == pk_rbracket then emit (report_key btn_right false) w2 else w2))
  release_buttons-Inv phys w e i = elim (Bool-cases (phys == pk_lbracket)) [
    | inl l ↦
        rw (l, ==_ne phys pk_rbracket (ground arith))
          (cleared-Inv btn_left phys w (ground arith) (ground (arith, (i.slots phys).mouse e)) i)
    | inr nl ↦ elim (Bool-cases (phys == pk_rbracket)) [
      | inl r ↦
          rw (nl, r)
            (cleared-Inv btn_right phys w (ground arith) (ground (arith, (i.slots phys).mouse e)) i)
      | inr nr ↦ rw (nl, nr) (dropped-Inv phys w (inr (ground (arith, (i.slots phys).mouse e))) i)
    ]
  ]

  stopped-Quiet :
      (b : Bool) (phys : ℕ) (w : World D)
      → Quiet w (if b then mouse_stop_move (arrow_dir phys) w else w)
  stopped-Quiet true phys w = mouse_stop_move-Quiet (arrow_dir phys) w
  stopped-Quiet false phys w = record {
    slots = refl;
    shl = refl;
    shr = refl;
    alt = refl;
    ctrl = refl;
    reported = refl;
    held = λ k. refl;
  }

  release_mouse-Inv :
      (kc : Keycode) (phys : ℕ) (w : World D)
      → (w.ctx.key_state phys).emit_mode ≡ emit_mouse
      → Inv w
      → Inv (set_slot phys emit_none reserved (release_slot emit_mouse kc phys w))
  unfolding release_slot
  release_mouse-Inv kc phys w e i =
      let q = stopped-Quiet (is_mouse_key phys && is_arrow phys) phys w in
      release_buttons-Inv phys _ (rw q.slots e) (Quiet-Inv q i)

  release_slot-Inv :
      (m : EmitMode) (kc : Keycode) (phys : ℕ) (w : World D)
      → (w.ctx.key_state phys).emit_mode ≡ m
      → (w.ctx.key_state phys).keycode ≡ kc
      → Inv w
      → Inv (set_slot phys emit_none reserved (release_slot m kc phys w))
  unfolding release_slot
  release_slot-Inv emit_none kc phys w e f i = dropped-Inv phys w (inl e) i
  release_slot-Inv emit_mouse kc phys w e f i = release_mouse-Inv kc phys w e i
  release_slot-Inv _ kc phys w e f i =
      cleared-Inv kc phys w (subst IsPlain f (i.slots phys).plain) (inl f) i

module _ {D : Type 0} (p : Platform D) where
  pub key_release-Inv : (phys : ℕ) (w : World D) → Inv w → Inv (key_release p phys w)
  unfolding key_release
  key_release-Inv phys w i = Quiet-Inv (stamp-Quiet p _) (
      release_slot-Inv (w.ctx.key_state phys).emit_mode (w.ctx.key_state phys).keycode phys w refl
        refl i)

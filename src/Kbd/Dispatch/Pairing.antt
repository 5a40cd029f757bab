-- ===== src/Kbd/Dispatch/Pairing.antt =====
-- A press fixes the code of a key, and the release of the key reports the same code.
use picocalc_ubuntu_kernel.Prelude.{
  if_cases, ==_self, ℕ, ◌≡◌, refl, ◌∙◌, sym, ◌≢◌, ◌⊎◌, inl, inr, true, false, not, ◌&&◌, ◌==◌,
  Option-cases, arith, List, [], ◌∷◌, All, subst,
}
use picocalc_ubuntu_kernel.Input.{Keycode, reserved, btn_left, btn_right, Effect, report_key}
use picocalc_ubuntu_kernel.Platform.{Platform}
use picocalc_ubuntu_kernel.Kbd.Phys.{pk_lbracket, pk_rbracket}
use picocalc_ubuntu_kernel.Kbd.Context.{
  World, KeySlot, EmitMode, emit_none, emit_normal, emit_shifted, emit_fn, emit_mouse, is_none,
  is_code, set_slot, stamp,
}
use picocalc_ubuntu_kernel.Kbd.Tables.{phys_to_base_keycode, lookup_fn_keycode, lookup_fn_action}
use picocalc_ubuntu_kernel.Kbd.Dispatch.{
  run_events, key_dispatch, key_press, key_state_pressed, key_state_released, press_as, base_press,
  fn_press, is_mouse_key, mouse_press, mouse_start_move, plain_press, release_slot, arrow_dir,
  is_arrow, key_release,
}
use picocalc_ubuntu_kernel.Kbd.Dispatch.Quiet.{stamp-Quiet, mouse_start_move-Quiet}
use picocalc_ubuntu_kernel.Kbd.Dispatch.Frame.{
  key_dispatch-SameBut, IsOrdinary, key_dispatch-press, key_dispatch-release,
}

abbrev pub clear_slot : KeySlot
clear_slot = record { emit_mode = emit_none; keycode = reserved }

-- A slot in use, with the log at whose head the press of its code stands.
record Locked (phys : ℕ) (s : KeySlot) (out : List Effect) : Type 0 where
  used : s.emit_mode ≢ emit_none
  bracket :
      s.emit_mode ≡ emit_mouse
      → ((phys ≡ pk_lbracket) × (s.keycode ≡ btn_left))
        ⊎ ((phys ≡ pk_rbracket) × (s.keycode ≡ btn_right))
  rest : List Effect
  reported : out ≡ report_key s.keycode true ∷ rest

abbrev Fixed : ℕ → KeySlot → List Effect → Type 0
Fixed phys s out = (s.keycode ≡ reserved) ⊎ Locked phys s out

abbrev IsFixed : {D : Type 0} → ℕ → World D → Type 0
IsFixed phys w = Fixed phys (w.ctx.key_state phys) w.out

module _ {D : Type 0} (p : Platform D) (phys : ℕ) where
  press_as-IsFixed :
      (m : EmitMode) (kc : Keycode) (w : World D)
      → m ≢ emit_none
      → (m ≡ emit_mouse
          → ((phys ≡ pk_lbracket) × (kc ≡ btn_left)) ⊎ ((phys ≡ pk_rbracket) × (kc ≡ btn_right)))
      → IsFixed phys (press_as p m kc phys w)
  unfolding stamp
  press_as-IsFixed m kc w used bracket =
      subst (λ s. Fixed phys s (press_as p m kc phys w).out) (sym (rw (==_self phys)))
        (inr (record { used = used; bracket = bracket; rest = w.out; reported = refl }))

  base_press-IsFixed :
      (w : World D) → (w.ctx.key_state phys).keycode ≡ reserved → IsFixed phys (base_press p phys w)
  unfolding base_press
  base_press-IsFixed w clear =
      let P = IsFixed phys in
      if_cases P (not (is_code (phys_to_base_keycode phys))) _ _ (λ _. inl clear)
        λ _.
          if_cases P w.ctx.phy_shr _ _ (λ _. press_as-IsFixed emit_shifted _ _ (λ e. cc) (λ e. cc))
            (λ _. press_as-IsFixed emit_normal _ _ (λ e. cc) (λ e. cc))

  silent-IsFixed :
      (m : EmitMode) (w : World D)
      → (w.ctx.key_state phys).keycode ≡ reserved
      → IsFixed phys (stamp p w)
  silent-IsFixed m w clear = inl (rw (stamp-Quiet p w).slots clear)

  fn_press-IsFixed :
      (w : World D) → (w.ctx.key_state phys).keycode ≡ reserved → IsFixed phys (fn_press p phys w)
  unfolding fn_press
  fn_press-IsFixed w clear = elim (Option-cases (lookup_fn_action phys)) [
    | inr (act, e) ↦ rw (e, fn_press) (silent-IsFixed emit_fn _ (rw (==_self phys)))
    | inl e ↦
        rw (e, fn_press)
          (if_cases (IsFixed phys) (is_code (lookup_fn_keycode phys w.ctx.mouse_mode)) _ _
            (λ _. press_as-IsFixed emit_fn _ w (λ x. cc) (λ x. cc))
            (λ _. base_press-IsFixed w clear))
  ]

  plain_press-IsFixed :
      (w : World D)
      → (w.ctx.key_state phys).keycode ≡ reserved
      → IsFixed phys (plain_press p phys w)
  unfolding plain_press
  plain_press-IsFixed w clear =
      if_cases (IsFixed phys) w.ctx.phy_shr _ _ (λ _. fn_press-IsFixed w clear)
        (λ _. base_press-IsFixed w clear)

  arrow_press-IsFixed :
      (w : World D)
      → IsFixed phys
          (stamp p (mouse_start_move p (arrow_dir phys) (set_slot phys emit_mouse reserved w)))
  arrow_press-IsFixed w = silent-IsFixed emit_mouse _ (
      rw (mouse_start_move-Quiet p (arrow_dir phys) (set_slot phys emit_mouse reserved w)).slots
        (rw (==_self phys)))

  mouse_press-IsFixed :
      (w : World D)
      → (w.ctx.key_state phys).keycode ≡ reserved
      → IsFixed phys (mouse_press p phys w)
  unfolding mouse_press
  mouse_press-IsFixed w clear =
      let P = IsFixed phys in
      if_cases P (is_arrow phys) _ _ (λ _. arrow_press-IsFixed w)
        λ _.
          if_cases P (phys == pk_lbracket) _ _
            (λ e. press_as-IsFixed emit_mouse btn_left w (λ x. cc) (λ x. inl (ground arith, refl)))
            λ _.
              if_cases P (phys == pk_rbracket) _ _
                (λ e.
                  press_as-IsFixed emit_mouse btn_right w (λ x. cc) (λ x. inr (ground arith, refl)))
                (λ _. plain_press-IsFixed w clear)

  key_press-IsFixed :
      (w : World D) → (w.ctx.key_state phys).keycode ≡ reserved → IsFixed phys (key_press p phys w)
  unfolding key_press
  key_press-IsFixed w clear =
      if_cases (IsFixed phys) (not (is_none (w.ctx.key_state phys).emit_mode)) _ _ (λ _. inl clear)
        λ _.
          if_cases (IsFixed phys) (w.ctx.mouse_mode && not w.ctx.phy_shr && is_mouse_key phys) _ _
            (λ _. mouse_press-IsFixed w clear) (λ _. plain_press-IsFixed w clear)

  -- The release of a slot in use, whose code is `kc`.
  release_slot-out :
      (m : EmitMode) (kc : Keycode) (w : World D)
      → m ≢ emit_none
      → (m ≡ emit_mouse
          → ((phys ≡ pk_lbracket) × (kc ≡ btn_left)) ⊎ ((phys ≡ pk_rbracket) × (kc ≡ btn_right)))
      → (release_slot m kc phys w).out ≡ report_key kc false ∷ w.out
  unfolding release_slot is_mouse_key
  release_slot-out emit_none kc w used b = absurd (used refl)
  release_slot-out emit_mouse kc w used b = ground (arith, b refl)
  release_slot-out _ kc w used b = refl

  run_events-slot :
      (es : List (ℕ × ℕ)) (w : World D)
      → All (λ e. e.0 ≢ phys) es
      → (run_events p es w).ctx.key_state phys ≡ w.ctx.key_state phys
  unfolding run_events
  run_events-slot [] w h = refl
  run_events-slot ((q, state) ∷ es) w h =
      run_events-slot es (key_dispatch p q state w) h.1 ∙ key_dispatch-SameBut p q state w phys h.0

  released :
      (w : World D)
      → IsOrdinary phys
      → {out : List Effect} → Locked phys (w.ctx.key_state phys) out
      → (key_dispatch p phys key_state_released w).out
        ≡ report_key (w.ctx.key_state phys).keycode false ∷ w.out
  unfolding key_release stamp
  released w o l = rw (key_dispatch-release p phys w o) (
      release_slot-out (w.ctx.key_state phys).emit_mode (w.ctx.key_state phys).keycode w l.used
        l.bracket)

  -- A press that fixes a code reports it, whatever mode it chooses; and after any events of other keys
  -- (mode switches and modifiers among them) the release of the key reports that same code, and
  -- nothing else.
  pub press_release_paired :
      (es : List (ℕ × ℕ)) (w : World D) (kc : Keycode)
      → IsOrdinary phys
      → (w.ctx.key_state phys).keycode ≡ reserved
      → All (λ e. e.0 ≢ phys) es
      → ((key_dispatch p phys key_state_pressed w).ctx.key_state phys).keycode ≡ kc
      → kc ≢ reserved
      → let w1 = key_dispatch p phys key_state_pressed w in
        let w2 = run_events p es w1 in
        ((rest : List Effect) × (w1.out ≡ report_key kc true ∷ rest))
        × ((key_dispatch p phys key_state_released w2).out ≡ report_key kc false ∷ w2.out)
  press_release_paired es w kc o clear others code real =
      elim (subst (IsFixed phys) (sym (key_dispatch-press p phys w o))
        (key_press-IsFixed w clear)) [
          | inl none ↦ absurd (real (sym code ∙ none))
          | inr l ↦
              let w1 = key_dispatch p phys key_state_pressed w in
              let same = run_events-slot es w1 others in
              (
                (l.rest, rw (← code) l.reported),
                released (run_events p es w1) o {out = w1.out} (rw same l) ∙ rw (same, code),
              )
        ]

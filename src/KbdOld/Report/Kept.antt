-- ===== src/KbdOld/Report/Kept.antt =====
-- An event of another key leaves the codes and the flag of a row of fn_keycodes alone, whatever the
-- mode and the shifts are.
use picocalc_ubuntu_kernel.KbdOld.Codes.{keycodes}
use picocalc_ubuntu_kernel.Prelude.{
  ℕ, true, false, List, if◌then◌else◌, ◌<◌, ◌≡◌, ltb, suc, ◌∷◌, ◌≢◌, Bool, [], arith, refl, zero,
  ◌+◌, get_or, none, sym, if_cases, ◌∙◌, ◌||◌, Option-cases, inl, inr, subst, ◌==◌, ◌⊎◌, Bool-cases,
  all_below_sound, not, ap,
}
use picocalc_ubuntu_kernel.Platform.{Platform}
use picocalc_ubuntu_kernel.Input.{Keycode, reserved}
use picocalc_ubuntu_kernel.KbdOld.Context.{FifoItem, World, key_state_pressed, key_state_released}
use picocalc_ubuntu_kernel.KbdOld.Fn.{FnMap, fn_keycodes, fn_rows, matches, fn_row, proccess_fn_key}
use picocalc_ubuntu_kernel.KbdOld.Report.{
  key_report_event, keyboard_key, track_shift, mouse_key, is_press, is_release, is_hold,
}
use picocalc_ubuntu_kernel.KbdOld.Report.Frame.{row_at}
use picocalc_ubuntu_kernel.KbdOld.Report.Others.{
  code_row, Still, Others, MovedStill, track_shift-Still, mouse_key-Still, no_row, insert_key-Still,
  stamp-Still, fn_rows-Still, no_row_handled, plain_key-Still, table,
}

abbrev own : ℕ → ℕ
own n = if ltb n 8 then suc n else 0

Numbered : ℕ → List FnMap → Type 0
Numbered n [] = Unit
Numbered n (row ∷ rows) =
    (code_row row.keycode1 ≡ own n) × (code_row row.keycode2 ≡ own n) × Numbered (suc n) rows

fn_keycodes-Numbered : Numbered 0 fn_keycodes
unfolding Numbered code_row
fn_keycodes-Numbered = (
  refl,
  refl,
  (
    refl,
    refl,
    (
      refl,
      refl,
      (
        refl,
        refl,
        (refl, refl, (refl, refl, (refl, refl, (refl, refl, (refl, refl, (refl, refl, tt)))))),
      ),
    ),
  ),
)

not_own : (n i : ℕ) → i < 8 → n ≢ i → own n ≢ suc i
not_own n i h ne = ground arith

-- The codes of each row stand in that row of the count.
pub row-codes :
    (i : ℕ)
    → i < 8
    → (code_row (row_at i).keycode1 ≡ suc i) × (code_row (row_at i).keycode2 ≡ suc i)
unfolding code_row
row-codes zero h = (refl, refl)
row-codes (suc zero) h = (refl, refl)
row-codes (suc (suc zero)) h = (refl, refl)
row-codes (suc (suc (suc zero))) h = (refl, refl)
row-codes (suc (suc (suc (suc zero)))) h = (refl, refl)
row-codes (suc (suc (suc (suc (suc zero))))) h = (refl, refl)
row-codes (suc (suc (suc (suc (suc (suc zero)))))) h = (refl, refl)
row-codes (suc (suc (suc (suc (suc (suc (suc zero))))))) h = (refl, refl)
row-codes (suc (suc (suc (suc (suc (suc (suc (suc i)))))))) h = absurd (omega (arith, h))

plain_code : (c : ℕ) → c < 256 → no_row c fn_keycodes ≡ true → code_row (keycodes c) ≡ 0
plain_code c byte h = ground (
  arith,
  h,
  all_below_sound 256 (λ s. not (no_row s fn_keycodes) || code_row (keycodes s) == 0) c table byte,
)

module _ {D : Type 0} (k : Keycode) (i : ℕ) (mine : code_row k ≡ suc i) (held flag : Bool)
    (p : Platform D) where
  rows_Others :
      (n : ℕ) (rows : List FnMap) (c : ℕ)
      → i < 8
      → Numbered n rows
      → ((m : ℕ) → n + m ≡ i → matches c (get_or rows m (fn_row 0 0 reserved reserved)) ≡ false)
      → Others k i mine held flag p n rows c
  unfolding Others Numbered
  rows_Others n [] c small ok avoid = tt
  rows_Others n (row ∷ rows) c small (one, two, ok) avoid = (
    λ m.
        let ne : n ≢ i = λ e. absurd (ground (arith, m, avoid 0 (omega (arith, e)))) in
        (ne, λ e. not_own n i small ne (sym one ∙ e), λ e. not_own n i small ne (sym two ∙ e)),
    rows_Others (suc n) rows c small ok (λ m e. avoid (suc m) (omega (arith, e))),
  )

  proccess_fn_key-Still :
      (ev : FifoItem) (w : World D)
      → i < 8
      → matches ev.scancode (row_at i) ≡ false
      → Still k i mine held flag w
      → Still k i mine held flag (proccess_fn_key ev w).1
  unfolding proccess_fn_key
  proccess_fn_key-Still ev w small avoid s =
      let others =
        rows_Others 0 fn_keycodes ev.scancode small fn_keycodes-Numbered (λ m e.
          subst (λ n. matches ev.scancode (row_at n) ≡ false) (sym e ∙ omega arith) avoid) in
      if_cases (λ (r : Bool × World D). Still k i mine held flag r.1)
        (ev.state == key_state_pressed || ev.state == key_state_released) _ _
        (λ _. fn_rows-Still k i mine held flag p 0 fn_keycodes ev w others s) (λ _. s)

  not_handled :
      (ev : FifoItem) (w : World D)
      → ev.scancode < 256
      → (is_press ev || is_release ev || is_hold ev) ≡ true
      → (proccess_fn_key ev w).0 ≡ false
      → (is_hold ev ≡ true) ⊎ (code_row (keycodes ev.scancode) ≡ 0)
  unfolding proccess_fn_key
  not_handled ev w byte acts free =
      elim (Bool-cases (ev.state == key_state_pressed || ev.state == key_state_released)) [
        | inl edge ↦ inr (
            plain_code ev.scancode byte (
              no_row_handled k i mine held flag p 0 fn_keycodes ev w (
                sym (ap (λ b. (if b then fn_rows 0 fn_keycodes ev w else (false, w)).0) edge)
                ∙ free)))
        | inr no_edge ↦ inl (ground (arith, acts, no_edge))
      ]

  keyboard_key-Still :
      (ev : FifoItem) (w : World D)
      → i < 8
      → ev.scancode < 256
      → matches ev.scancode (row_at i) ≡ false
      → (is_press ev || is_release ev || is_hold ev) ≡ true
      → Still k i mine held flag w
      → Still k i mine held flag (keyboard_key p ev w)
  unfolding keyboard_key
  keyboard_key-Still ev w small byte avoid acts s =
      let r = proccess_fn_key ev w in
      let t = proccess_fn_key-Still ev w small avoid s in
      if_cases (Still k i mine held flag) (ev.scancode == 0xd1) _ _
        (λ _. insert_key-Still k i mine held flag ev w s)
        λ _.
          if_cases (Still k i mine held flag) r.0 _ _ (λ _. stamp-Still k i mine held flag p r.1 t)
            λ free. plain_key-Still k i mine held flag p ev r.1 (not_handled ev w byte acts free) t

  pub key_report_event-Still :
      (ev : FifoItem) (w : World D)
      → i < 8
      → ev.scancode < 256
      → matches ev.scancode (row_at i) ≡ false
      → Still k i mine held flag w
      → Still k i mine held flag (key_report_event p ev w)
  unfolding key_report_event MovedStill
  key_report_event-Still ev w small byte avoid s =
      let w1 = track_shift ev w in
      let s1 = track_shift-Still k i mine held flag ev w s in
      let in_mode : MovedStill k i mine held flag p
          (if w1.ctx.mouse_mode then mouse_key p ev w1 else none) =
        if_cases (MovedStill k i mine held flag p) w1.ctx.mouse_mode _ _
          (λ _. mouse_key-Still k i mine held flag p ev w1 s1) (λ _. tt) in
      if_cases (Still k i mine held flag) (is_press ev || is_release ev || is_hold ev) _ _
        (λ acts. elim (Option-cases (if w1.ctx.mouse_mode then mouse_key p ev w1 else none)) [
          | inl e ↦ rw e (keyboard_key-Still ev w1 small byte avoid acts s1)
          | inr (w2, e) ↦ rw e (subst (MovedStill k i mine held flag p) e in_mode)
        ])
        (λ _. s)

-- ===== src/KbdOld/Report/Frame.antt =====
-- What an event of the v1.2 driver leaves alone: the codes and the flag of a row of fn_keycodes whose
-- scancodes it does not have.
use picocalc_ubuntu_kernel.Prelude.{
  ℕ, true, get_or, ◌≡◌, arith, ◌<◌, suc, zero, ◌⊎◌, Bool-cases, ◌==◌, inl, inr, subst, sym,
}
use picocalc_ubuntu_kernel.Platform.{Platform}
use picocalc_ubuntu_kernel.Input.{reserved}
use picocalc_ubuntu_kernel.KbdOld.Context.{World, stamp}
use picocalc_ubuntu_kernel.KbdOld.Fn.{FnMap, fn_row, fn_keycodes, matches, press_row, release_row}
use picocalc_ubuntu_kernel.KbdOld.Report.{key_report_event}

abbrev pub row_at : ℕ → FnMap
row_at i = get_or fn_keycodes i (fn_row 0 0 reserved reserved)

match_cases :
    (s : ℕ) (row : FnMap) → matches s row ≡ true → (s ≡ row.scancode1) ⊎ (s ≡ row.scancode2)
match_cases s row m = elim (Bool-cases (s == row.scancode1)) [
  | inl e ↦ inl (ground (arith, e))
  | inr n ↦ inr (ground (arith, n, m))
]

module _ {D : Type 0} (p : Platform D) where
  -- A press and a release of a key of the first eight rows reach its row in every mode.
  unfoldable pub ReachesRow : ℕ → ℕ → Type 0
  ReachesRow i s =
      (w : World D)
      → (key_report_event p (record { state = 1; scancode = s }) w
          ≡ stamp p (press_row i (row_at i) w))
        × (key_report_event p (record { state = 3; scancode = s }) w
            ≡ stamp p (release_row i (row_at i) w))

  both : (i : ℕ) → i < 8 → ReachesRow i (row_at i).scancode1 × ReachesRow i (row_at i).scancode2
  unfolding key_report_event ReachesRow
  both zero bound = (λ w. ground arith, λ w. ground arith)
  both (suc zero) bound = (λ w. ground arith, λ w. ground arith)
  both (suc (suc zero)) bound = (λ w. ground arith, λ w. ground arith)
  both (suc (suc (suc zero))) bound = (λ w. ground arith, λ w. ground arith)
  both (suc (suc (suc (suc zero)))) bound = (λ w. ground arith, λ w. ground arith)
  both (suc (suc (suc (suc (suc zero))))) bound = (λ w. ground arith, λ w. ground arith)
  both (suc (suc (suc (suc (suc (suc zero)))))) bound = (λ w. ground arith, λ w. ground arith)
  both (suc (suc (suc (suc (suc (suc (suc zero))))))) bound = (λ w. ground arith, λ w. ground arith)
  both (suc (suc (suc (suc (suc (suc (suc (suc i)))))))) bound = absurd (omega (arith, bound))

  pub fn_key-ReachesRow : (i s : ℕ) → i < 8 → matches s (row_at i) ≡ true → ReachesRow i s
  fn_key-ReachesRow i s bound m = elim (match_cases s (row_at i) m) [
    | inl e ↦ subst (ReachesRow i) (sym e) (both i bound).0
    | inr e ↦ subst (ReachesRow i) (sym e) (both i bound).1
  ]

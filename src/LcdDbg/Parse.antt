-- ===== src/LcdDbg/Parse.antt =====
-- The loop of write_store ends, with 64 bytes at most.
use picocalc_ubuntu_kernel.LcdDbg.{
  Digits, skip_space, take_digits, Option, ℕ, [], length, parse_bytes, some, none, leb,
}
use picocalc_ubuntu_kernel.Prelude.{
  zero, suc, List, ◌≡◌, ◌<◌, ◌∷◌, ◌≤◌, ◌⊎◌, arith, inl, ◌++◌, Bool-cases, inr, Option-cases, subst,
  length-append, ◌∙◌, refl,
}

skip_space-le : (text : List ℕ) → length (skip_space text) ≤ length text
unfolding skip_space
skip_space-le [] = omega arith
skip_space-le (c ∷ cs) = ground (arith, skip_space-le cs)

take_digits-le : (c : ℕ) (cs : List ℕ) → length (take_digits c cs).1 ≤ length cs
unfolding take_digits
take_digits-le c [] = omega arith
take_digits-le c (d ∷ cs) = ground arith

pub List-cases {ℓ} :
    {A : Type ℓ} (xs : List A) → (xs ≡ []) ⊎ ((x : A) × (rest : List A) × (xs ≡ x ∷ rest))
List-cases [] = inl refl
List-cases (x ∷ xs) = inr (x, xs, refl)

module _ (kstrtou8 : Digits → Option ℕ) where
  -- One round, by what the text and kstrtou8 are.
  pub round_full :
      (n : ℕ) (text bytes : List ℕ)
      → 64 ≤ length bytes
      → parse_bytes kstrtou8 (suc n) text bytes ≡ some bytes
  unfolding parse_bytes
  round_full n text bytes full = ground arith

  pub round_end :
      (n : ℕ) (text bytes : List ℕ)
      → skip_space text ≡ []
      → parse_bytes kstrtou8 (suc n) text bytes ≡ some bytes
  unfolding parse_bytes
  round_end n text bytes e = ground (arith, e)

  pub round_bad :
      (n c : ℕ) (text cs bytes : List ℕ)
      → skip_space text ≡ c ∷ cs
      → kstrtou8 (take_digits c cs).0 ≡ none
      → parse_bytes kstrtou8 (suc n) text bytes ≡ some bytes
  unfolding parse_bytes
  round_bad n c text cs bytes e bad = ground (arith, e, bad)

  pub round_byte :
      (n c b : ℕ) (text cs bytes : List ℕ)
      → length bytes < 64
      → skip_space text ≡ c ∷ cs
      → kstrtou8 (take_digits c cs).0 ≡ some b
      → parse_bytes kstrtou8 (suc n) text bytes
        ≡ parse_bytes kstrtou8 n (take_digits c cs).1 (bytes ++ b ∷ [])
  unfolding parse_bytes
  round_byte n c b text cs bytes room e ok = ground (arith, e, ok)

  Ends : ℕ → List ℕ → List ℕ → Type 0
  Ends n text bytes =
      (out : List ℕ) × (parse_bytes kstrtou8 n text bytes ≡ some out) × (length out ≤ 64)

  parse_bytes-Ends :
      (n : ℕ) (text bytes : List ℕ) → length text < n → length bytes ≤ 64 → Ends n text bytes
  unfolding Ends
  parse_bytes-Ends zero text bytes fuel small = absurd (omega (arith, fuel))
  parse_bytes-Ends (suc n) text bytes fuel small = elim (Bool-cases (leb 64 (length bytes))) [
    | inl full ↦ (bytes, round_full n text bytes (ground (arith, full)), small)
    | inr room ↦ elim (List-cases (skip_space text)) [
      | inl e ↦ (bytes, round_end n text bytes e, small)
      | inr (c, cs, e) ↦ elim (Option-cases (kstrtou8 (take_digits c cs).0)) [
        | inl bad ↦ (bytes, round_bad n c text cs bytes e bad, small)
        | inr (b, ok) ↦
            let shorter : length (c ∷ cs) ≤ length text =
              subst (λ x. length x ≤ length text) e (skip_space-le text) in
            let (out, ends, bound) =
              parse_bytes-Ends n (take_digits c cs).1 (bytes ++ b ∷ [])
                (omega (arith, fuel, shorter, take_digits-le c cs))
                (ground (arith, room, length-append bytes (b ∷ []))) in
            (out, round_byte n c b text cs bytes (ground (arith, room)) e ok ∙ ends, bound)
      ]
    ]
  ]

  -- Whatever text is written to the file and whatever kstrtou8 makes of it, the loop ends after at most
  -- one round more than the text has characters, and it leaves at most the 64 bytes of its array.
  pub parse_ends :
      (text : List ℕ)
      → (out : List ℕ) × (parse_bytes kstrtou8 (suc (length text)) text [] ≡ some out)
        × (length out ≤ 64)
  unfolding Ends
  parse_ends text = parse_bytes-Ends (suc (length text)) text [] (omega arith) (omega arith)

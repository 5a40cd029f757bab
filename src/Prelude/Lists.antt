-- ===== src/Prelude/Lists.antt =====
-- Lists measured and indexed by native numbers, and arrays as functions of the index.
use Prim.Native.Nat.{ℕ, zero, suc, ◌+◌, ◌<◌}
use native.Mathlib.Nat.{zero-add, suc-add}
use mathlib.Core.Path.{◌≡◌, refl, ap, ap₂, ◌∙◌}
use mathlib.Core.List.{List, [], ◌∷◌, ◌++◌, map}
use native.Mathlib.Omega.{arith}
use picocalc_ubuntu_kernel.Prelude.Tests.{◌==◌, if◌then◌else◌}

module _ {ℓ} {A : Type ℓ} where
  abbrev pub length : List A → ℕ
  length [] = 0
  length (x ∷ xs) = suc (length xs)

  abbrev pub get_or : List A → ℕ → A → A
  get_or [] i d = d
  get_or (x ∷ xs) zero d = x
  get_or (x ∷ xs) (suc i) d = get_or xs i d

  abbrev pub All {κ} : (A → Type κ) → List A → Type κ
  All P [] = Unit
  All P (x ∷ xs) = P x × All P xs

  -- An array written at one index.
  abbrev pub update : (ℕ → A) → ℕ → A → ℕ → A
  update f i v j = if i == j then v else f j

  pub length-append : (xs ys : List A) → length (xs ++ ys) ≡ length xs + length ys
  length-append [] ys = omega arith
  length-append (x ∷ xs) ys = omega (arith, length-append xs ys)

  -- The first n values of a function.
  unfoldable pub tabulate : ℕ → (ℕ → A) → List A
  tabulate zero f = []
  tabulate (suc n) f = f 0 ∷ tabulate n (λ k. f (suc k))

  pub length-tabulate : (n : ℕ) (f : ℕ → A) → length (tabulate n f) ≡ n
  unfolding tabulate
  length-tabulate zero f = refl
  length-tabulate (suc n) f = ap suc (length-tabulate n (λ k. f (suc k)))

  pub tabulate-ext :
      (n : ℕ) (f g : ℕ → A) → ((k : ℕ) → k < n → f k ≡ g k) → tabulate n f ≡ tabulate n g
  unfolding tabulate
  tabulate-ext zero f g h = refl
  tabulate-ext (suc n) f g h =
      ap₂ ◌∷◌ (h 0 (omega arith))
        (tabulate-ext n (λ k. f (suc k)) (λ k. g (suc k)) (λ k b. h (suc k) (omega arith)))

  pub tabulate-append :
      (a b : ℕ) (f : ℕ → A) → tabulate (a + b) f ≡ tabulate a f ++ tabulate b (λ k. f (a + k))
  unfolding tabulate
  tabulate-append zero b f =
      rw (zero-add b) (tabulate-ext b f (λ k. f (0 + k)) (λ k h. ap f (omega arith)))
  tabulate-append (suc a) b f = rw (suc-add a b) (
      ap (◌∷◌ (f 0)) (
        tabulate-append a b (λ k. f (suc k))
        ∙ ap (◌++◌ (tabulate a (λ k. f (suc k)))) (
            tabulate-ext b (λ k. f (suc (a + k))) (λ k. f (suc a + k))
              (λ k h. ap f (omega arith)))))

pub map-tabulate {ℓ κ} :
    {A : Type ℓ} {B : Type κ} (g : A → B) (n : ℕ) (f : ℕ → A)
    → map g (tabulate n f) ≡ tabulate n (λ k. g (f k))
unfolding tabulate
map-tabulate g zero f = refl
map-tabulate g (suc n) f = ap (◌∷◌ (g (f 0))) (map-tabulate g n (λ k. f (suc k)))

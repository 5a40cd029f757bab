-- ===== src/Mculog/Ring.antt =====
-- The ring as a list of bytes: what is written joins the list at its end, what is read leaves it at
-- its front.
use mathlib.Core.Path.{ap₂}
use native.Mathlib.Nat.{add_comm, add-zero, mod-eq_of_lt, mod-eq-sub-mod, add_comm}
use picocalc_ubuntu_kernel.Prelude.{
  Bool-cases, inl, inr, ℕ, zero, suc, ◌+◌, ◌-◌, ◌%◌, ◌^◌, ◌≤◌, ◌<◌, ◌≡◌, refl, ◌∙◌, ap, ltb,
  if◌then◌else◌, List, ◌∷◌, ◌++◌, arith, sym, length, length-tabulate, tabulate, tabulate-append,
  tabulate-ext,
}
use picocalc_ubuntu_kernel.Mculog.{
  MculogBuffer, memcpy, free_space, available, segment, add32, filled, sub32,
}

segment-tabulate :
    (buf : ℕ → ℕ) (from n : ℕ) → segment buf from n ≡ tabulate n (λ k. buf (from + k))
unfolding segment tabulate
segment-tabulate buf from zero = refl
segment-tabulate buf from (suc n) = rw (add-zero from) (
    ap (◌∷◌ (buf from)) (
      segment-tabulate buf (suc from) n
      ∙ tabulate-ext n (λ k. buf (suc from + k)) (λ k. buf (from + suc k))
          (λ k h. ap buf (omega arith))))

pub record Valid (lb : MculogBuffer) : Type 0 where
  pub sized : lb.max_size < 2 ^ 31
  pub head_in : lb.head < lb.max_size
  pub tail_in : lb.tail < lb.max_size

unfoldable pub wrap : ℕ → ℕ → ℕ
wrap m a = if ltb a m then a else a - m

mod-wrap : (m a : ℕ) → a < m + m → a % m ≡ wrap m a
unfolding wrap
mod-wrap m a h = elim (Bool-cases (ltb a m)) [
  | inl small ↦ rw small (mod-eq_of_lt (ground arith))
  | inr big ↦ rw (big, mod-eq-sub-mod {n = a} {m = m} (ground arith)) (mod-eq_of_lt (ground arith))
]

-- The bytes that the reader has still to get.
pub pending : MculogBuffer → List ℕ
unfolding wrap
pending lb = tabulate (available lb) (λ k. lb.buf (wrap lb.max_size (lb.tail + k)))

module _ (lb : MculogBuffer) (v : Valid lb) where
  pub available-lt : available lb < lb.max_size
  unfolding available
  available-lt = ground arith

  -- One byte always stays free, so that a full ring is not an empty one.
  pub free-available : free_space lb + available lb + 1 ≡ lb.max_size
  unfolding free_space available
  free-available = ground arith

  module _ (ptr : ℕ → ℕ) (n : ℕ) (room : n ≤ free_space lb) where
    pub head_after : add32 lb.head n % lb.max_size ≡ wrap lb.max_size (lb.head + n)
    unfolding free_space
    head_after = ground (arith, mod-wrap lb.max_size (lb.head + n), free-available)

    unfoldable pub written : MculogBuffer
    written = record lb { buf = filled lb ptr n; head = wrap lb.max_size (lb.head + n) }

    pub written-Valid : Valid written
    unfolding wrap written
    written-Valid = ground (arith, free-available)

    available-written : available written ≡ available lb + n
    unfolding wrap written available free_space
    available-written = ground arith

    kept :
        (k : ℕ)
        → k < available lb
        → filled lb ptr n (wrap lb.max_size (lb.tail + k)) ≡ lb.buf (wrap lb.max_size (lb.tail + k))
    unfolding wrap available free_space filled memcpy
    kept k h = ground arith

    fresh :
        (k : ℕ) → k < n → filled lb ptr n (wrap lb.max_size (lb.tail + (available lb + k))) ≡ ptr k
    unfolding wrap available free_space filled memcpy
    fresh k h = ground arith

    pub pending-written : pending written ≡ pending lb ++ tabulate n ptr
    unfolding pending written
    pending-written = rw available-written (
        tabulate-append (available lb) n _
        ∙ rw
            (
              tabulate-ext (available lb) _ (λ k. lb.buf (wrap lb.max_size (lb.tail + k))) kept,
              tabulate-ext n _ ptr fresh,
            )
            refl)

  -- Taking n bytes off the front.
  module _ (n : ℕ) (there : n ≤ available lb) where
    unfoldable pub taken : MculogBuffer
    taken = record lb { tail = wrap lb.max_size (lb.tail + n) }

    pub tail_after : add32 lb.tail n % lb.max_size ≡ wrap lb.max_size (lb.tail + n)
    tail_after = ground (arith, mod-wrap lb.max_size (lb.tail + n), available-lt)

    pub taken-Valid : Valid taken
    unfolding wrap taken
    taken-Valid = ground (arith, available-lt)

    pub available-taken : available taken + n ≡ available lb
    unfolding wrap taken available
    available-taken = ground arith

    unfoldable pub front : List ℕ
    front = tabulate n (λ k. lb.buf (wrap lb.max_size (lb.tail + k)))

    pub length-front : length front ≡ n
    unfolding front
    length-front = length-tabulate n _

    rest_at :
        (k : ℕ)
        → k < available taken
        → wrap lb.max_size (lb.tail + (n + k))
          ≡ wrap lb.max_size (wrap lb.max_size (lb.tail + n) + k)
    unfolding wrap taken available
    rest_at k h = ground arith

    pub pending-taken : pending lb ≡ front ++ pending taken
    unfolding pending taken front
    pending-taken =
        ap (λ a. tabulate a (λ k. lb.buf (wrap lb.max_size (lb.tail + k))))
          (sym available-taken ∙ add_comm (available taken) n)
        ∙ tabulate-append n (available taken) _
        ∙ ap (◌++◌ front) (tabulate-ext (available taken) _ _ (λ k h. ap lb.buf (rest_at k h)))

    pub straight : n ≤ sub32 lb.max_size lb.tail → segment lb.buf lb.tail n ≡ front
    unfolding front wrap
    straight h =
        segment-tabulate lb.buf lb.tail n ∙ tabulate-ext n _ _ (λ k b. ap lb.buf (ground arith))

    around_at :
        (e b : ℕ)
        → lb.tail + e ≡ lb.max_size
        → n ≡ e + b
        → segment lb.buf lb.tail e ++ segment lb.buf 0 b ≡ front
    unfolding front wrap
    around_at e b full split =
        rw (split, tabulate-append e b (λ k. lb.buf (wrap lb.max_size (lb.tail + k))))
          (ap₂ ◌++◌
            (segment-tabulate lb.buf lb.tail e
              ∙ tabulate-ext e _ _ (λ k h. ap lb.buf (ground arith)))
            (segment-tabulate lb.buf 0 b
              ∙ tabulate-ext b _ _ (λ k h. ap lb.buf (ground (arith, available-lt)))))

    pub around :
        sub32 lb.max_size lb.tail < n
        → let to_end = sub32 lb.max_size lb.tail in
          segment lb.buf lb.tail to_end ++ segment lb.buf 0 (n - to_end) ≡ front
    around h =
        around_at (sub32 lb.max_size lb.tail) (n - sub32 lb.max_size lb.tail) (ground arith)
          (ground arith)

-- ===== src/Mculog/Fifo.antt =====
-- The calls of the two sides against the list of bytes that wait in the ring.
use Prim.Native.Nat.{min}
use picocalc_ubuntu_kernel.Prelude.{
  ℕ, zero, suc, ◌-◌, ◌^◌, ◌≤◌, ◌<◌, ◌≡◌, refl, ◌∙◌, sym, ap, ◌⊎◌, inl, inr, Bool, true, false,
  Bool-cases, ltb, if◌then◌else◌, List, [], ◌++◌, some, length, arith, ◌&&◌, tabulate, ◌||◌,
}
use picocalc_ubuntu_kernel.Prelude.Int.{pos}
use picocalc_ubuntu_kernel.Platform.{Ret, value, failure}
use picocalc_ubuntu_kernel.Mculog.{
  MculogBuffer, mcu_write, mculog_read, write_length, free_space, available, efault, sub32, segment,
  not,
}
use picocalc_ubuntu_kernel.Mculog.Ring.{
  wrap, length-front, written, written-Valid, pending-written, taken, taken-Valid, pending-taken,
  front, head_after, tail_after, straight, around, Valid, pending,
}

write_length_lem :
    (len : ℕ) (lb : MculogBuffer)
    → len < 2 ^ 31
    → write_length lb (pos len) ≡ min len (free_space lb)
unfolding write_length
write_length_lem len lb small = ground arith

standard : (fd : ℕ) → fd ≤ 2 → ltb 2 fd ≡ false
standard fd h = ground arith

mcu_write_eq :
    (fd : ℕ) (ptr : ℕ → ℕ) (len : ℕ) (lb : MculogBuffer)
    → fd ≤ 2
    → len < 2 ^ 31
    → (v : Valid lb) (room : min len (free_space lb) ≤ free_space lb)
    → mcu_write fd ptr (pos len) lb
      ≡ (some (min len (free_space lb)), written lb v ptr (min len (free_space lb)) room)
unfolding mcu_write written
mcu_write_eq fd ptr len lb std small v room =
    rw
      (
        write_length_lem len lb small,
        standard fd std,
        head_after lb v ptr (min len (free_space lb)) room,
      )
      refl

-- A write to one of the standard streams accepts as many of its first bytes as there is room for,
-- and exactly these join the bytes that wait, behind all of them; no byte that waited is overwritten.
pub mcu_write_appends :
    (fd : ℕ) (ptr : ℕ → ℕ) (len : ℕ) (lb : MculogBuffer)
    → fd ≤ 2
    → len < 2 ^ 31
    → Valid lb
    → let (r, lb') = mcu_write fd ptr (pos len) lb in
      let n = min len (free_space lb) in
      (r ≡ some n) × Valid lb' × (pending lb' ≡ pending lb ++ tabulate n ptr)
mcu_write_appends fd ptr len lb std small v =
    let n = min len (free_space lb) in
    let room : n ≤ free_space lb = omega arith in
    rw (mcu_write_eq fd ptr len lb std small v room)
      (refl, written-Valid lb v ptr n room, pending-written lb v ptr n room)

-- Whether all copies succeed that a read makes: none from an empty ring, one that does not reach the end
-- of the ring, two otherwise.
unfoldable pub copies : ℕ → Bool → Bool → MculogBuffer → Bool
copies count first second lb =
    let past = ltb (sub32 lb.max_size lb.tail) (min count (available lb)) in
    if not (ltb 0 (available lb)) then true else first && (not past || second)

-- What a read comes to.
pub Taken : ℕ → Bool → Bool → MculogBuffer → Type 0
Taken count first second lb =
    let (r, bytes, lb') = mculog_read count first second lb in
    Valid lb'
    × (((copies count first second lb ≡ true)
          × (r ≡ value (length bytes))
          × (length bytes ≡ min count (available lb))
          × (pending lb ≡ bytes ++ pending lb'))
        ⊎ ((copies count first second lb ≡ false) × (r ≡ failure efault) × (lb' ≡ lb)))

module _ (lb : MculogBuffer) (v : Valid lb) where
  empty_case :
      (n : ℕ) (there : n ≤ available lb)
      → available lb ≡ 0
      → let r : Ret ℕ × List ℕ × MculogBuffer = (value 0, [], lb) in
        r ≡ (value n, front lb v n there, taken lb v n there)
  unfolding front taken wrap tabulate
  empty_case zero there e = ground arith
  empty_case (suc n) there e = absurd (omega arith)

  -- What a read with bytes to hand over comes to, by the copies that succeed.
  copied :
      (n : ℕ) (first second past : Bool) (there : n ≤ available lb)
      → ltb (sub32 lb.max_size lb.tail) n ≡ past
      → let to_end = sub32 lb.max_size lb.tail in
        let done = taken lb v n there in
        let start = segment lb.buf lb.tail to_end in
        let bytes = start ++ segment lb.buf 0 (n - to_end) in
        let r : Ret ℕ × List ℕ × MculogBuffer =
          if past
          then if not first
            then (failure efault, [], lb)
            else if not second
            then (failure efault, start, lb)
            else (value n, bytes, done)
          else if not first
          then (failure efault, [], lb)
          else (value n, segment lb.buf lb.tail n, done) in
        ((r ≡ (value n, front lb v n there, done)) × (first && (not past || second) ≡ true))
        ⊎ ((bytes : List ℕ) × (r ≡ (failure efault, bytes, lb))
            × (first && (not past || second) ≡ false))
  copied n true true true there e = inl (rw (around lb v n there (ground arith)) refl, refl)
  copied n true false true there e =
      inr (segment lb.buf lb.tail (sub32 lb.max_size lb.tail), refl, refl)
  copied n false s true there e = inr ([], refl, refl)
  copied n true true false there e = inl (rw (straight lb v n there (ground arith)) refl, refl)
  copied n true false false there e = inl (rw (straight lb v n there (ground arith)) refl, refl)
  copied n false s false there e = inr ([], refl, refl)

  read_cases :
      (count n : ℕ) (first second : Bool)
      → n ≡ min count (available lb)
      → (there : n ≤ available lb)
      → ((mculog_read count first second lb ≡ (value n, front lb v n there, taken lb v n there))
          × (copies count first second lb ≡ true))
        ⊎ ((bytes : List ℕ) × (mculog_read count first second lb ≡ (failure efault, bytes, lb))
            × (copies count first second lb ≡ false))
  unfolding mculog_read taken copies
  read_cases count n first second e there = elim (Bool-cases (ltb 0 (available lb))) [
    | inr none_there ↦ inl (rw none_there (empty_case n there (ground arith)), rw none_there refl)
    | inl some_there ↦
        rw (some_there, ← e, tail_after lb v n there) (copied n first second _ there refl)
  ]

takes :
    (count : ℕ) (first second : Bool) (lb : MculogBuffer) (v : Valid lb) (n : ℕ)
    → n ≡ min count (available lb)
    → (there : n ≤ available lb) → Taken count first second lb
unfolding Taken
takes count first second lb v n e there = elim (read_cases lb v count n first second e there) [
  | inr (bytes, f, bad) ↦ rw f (v, inr (bad, refl, refl))
  | inl (f, good) ↦ rw f (
    taken-Valid lb v n there,
    inl (
      good,
      ap value (sym (length-front lb v n there)),
      length-front lb v n there ∙ e,
      pending-taken lb v n there,
    ),
  )
]

-- From a well-formed ring, which every outcome leaves well formed. When every copy that the read makes
-- succeeds (it makes none from an empty ring), the read hands over
-- the bytes that have waited longest, `count` at most and all of them if there are no more, leaves the
-- others and reports how many it handed over. When one fails, it reports -EFAULT and leaves all of them.
pub mculog_read_takes :
    (count : ℕ) (first second : Bool) (lb : MculogBuffer) → Valid lb → Taken count first second lb
mculog_read_takes count first second lb v =
    takes count first second lb v (min count (available lb)) refl (omega arith)

-- ===== src/Pckb/Tracking.antt =====
-- The keys that Linux holds down against the events that the in-tree driver reads.
use picocalc_ubuntu_kernel.Platform.{Ret-cases}
use picocalc_ubuntu_kernel.Input.{
  is_down, Keycode, Effect, Keycode-discrete, schedule_delayed_work, pckb_work, key_pageup,
  same_code, input_sync, key_up, report_key,
}
use picocalc_ubuntu_kernel.Pckb.{
  paged, pckb_event, pckb_work_handler, Bool, Platform, Pckb, has_no_key, List, xlate, pckb_pressed,
  is_shift, pckb_released, false, pckb_reg, failure, value,
}
use picocalc_ubuntu_kernel.Prelude.{
  ap, ◌∙◌, ◌&&◌, ◌||◌, not, All, [], refl, ℕ, ◌≢◌, ◌≡◌, arith, ◌⊎◌, true, ◌∷◌, if◌then◌else◌, ◌==◌,
  ◌%◌, ◌/◌, inl, inr,
}

-- Not one of the arrows that become page keys.
abbrev pub IsUnpaged : ℕ → Type 0
IsUnpaged keycode = (keycode ≢ 0xb5) × (keycode ≢ 0xb6)

paged-unpaged : (page : Bool) (c : ℕ) → IsUnpaged c → paged page c ≡ c
unfolding paged
paged-unpaged page c u = ground arith

up_has_key : has_no_key 0xb5 ≡ false
unfolding has_no_key xlate Keycode-discrete
up_has_key = refl

up_paged : xlate (paged true 0xb5) ≡ key_pageup
unfolding xlate paged
up_paged = refl

up_unpaged : xlate (paged false 0xb5) ≡ key_up
unfolding xlate paged
up_unpaged = refl

shift_facts :
    (shift : ℕ)
    → (shift ≡ 0xa2) ⊎ (shift ≡ 0xa3)
    → (has_no_key shift ≡ false) × (xlate (paged false shift) ≢ key_pageup)
unfolding has_no_key xlate paged Keycode-discrete
shift_facts shift (inl e) = rw e (refl, ground arith)
shift_facts shift (inr e) = rw e (refl, ground arith)

-- Whether an event of a scancode is one that the driver reports: a press or a release of a key with a code.
unfoldable pub reports : ℕ → ℕ → Bool
reports st c = (st == pckb_pressed || st == pckb_released) && not (has_no_key c)

-- Whether the code `k` is down behind the events (each a state and a scancode, in their order), by the
-- events alone: the last reported event of a key with that code is a press.
unfoldable pub last_event : Keycode → List (ℕ × ℕ) → Bool → Bool
unfolding reports
last_event k [] before = before
last_event k ((st, c) ∷ es) before =
    last_event k es (if reports st c && same_code (xlate c) k then st == pckb_pressed else before)

module _ {D : Type 0} where
  -- The driver's part of each event, in their order.
  unfoldable pub run_pckb : List (ℕ × ℕ) → Pckb D → Pckb D
  run_pckb [] s = s
  run_pckb ((st, c) ∷ es) s = run_pckb es (pckb_event st c s)

  -- One event.
  event_tracked :
      (s : Pckb D) (st c : ℕ) (k : Keycode)
      → IsUnpaged c
      → is_down k (pckb_event st c s).out
        ≡ (if reports st c && same_code (xlate c) k then st == pckb_pressed else is_down k s.out)
  unfolding pckb_event is_down reports
  event_tracked s st c k u =
      ground (arith, paged-unpaged (if is_shift c then st == pckb_pressed else s.page_key) c u)

  -- After any run of events without the arrows up and down, in any order and of any states, Linux holds
  -- a code down exactly when the last press or release of a key with that code was a press or, when
  -- none came, when it held the code down before.
  pub events_tracked :
      (es : List (ℕ × ℕ)) (s : Pckb D) (k : Keycode)
      → All (λ e. IsUnpaged e.1) es
      → is_down k (run_pckb es s).out ≡ last_event k es (is_down k s.out)
  unfolding run_pckb last_event
  events_tracked [] s k h = refl
  events_tracked ((st, c) ∷ es) s k h =
      events_tracked es (pckb_event st c s) k h.1
      ∙ ap (last_event k es) (event_tracked s st c k h.0)

  press_up :
      (s : Pckb D)
      → s.page_key ≡ true
      → pckb_event pckb_pressed 0xb5 s
        ≡ record s { out = input_sync ∷ report_key key_pageup true ∷ s.out }
  unfolding pckb_event
  press_up s held = rw (up_has_key, held, up_paged) refl

  release_shift :
      (s : Pckb D) (shift : ℕ)
      → is_shift shift ≡ true
      → pckb_event pckb_released shift s ≡ record s {
        page_key = false;
        out = input_sync ∷ report_key (xlate (paged false shift)) false ∷ s.out;
      }
  unfolding pckb_event
  release_shift s shift h = rw ((shift_facts shift (ground arith)).0, h) refl

  release_up :
      (s : Pckb D)
      → s.page_key ≡ false
      → pckb_event pckb_released 0xb5 s
        ≡ record s { out = input_sync ∷ report_key key_up false ∷ s.out }
  unfolding pckb_event
  release_up s up = rw (up_has_key, up, up_unpaged) refl

  -- After an arrow up was pressed with a shift held, a release of the shift before the arrow leaves
  -- KEY_PAGEUP down, though no key of the keyboard is: the arrow's release is that of KEY_UP.
  pub page_up_stuck :
      (s : Pckb D) (shift : ℕ)
      → is_shift shift ≡ true
      → s.page_key ≡ true
      → let s1 = pckb_event pckb_pressed 0xb5 s in
        let s2 = pckb_event pckb_released shift s1 in
        let s3 = pckb_event pckb_released 0xb5 s2 in
        (is_down key_pageup s3.out ≡ true) × (s3.page_key ≡ false)
  unfolding is_down Keycode-discrete
  page_up_stuck s shift h held =
      let s1 : Pckb D = record s { out = input_sync ∷ report_key key_pageup true ∷ s.out } in
      let s2 : Pckb D = record s1 {
        page_key = false;
        out = input_sync ∷ report_key (xlate (paged false shift)) false ∷ s1.out;
      } in
      rw (press_up s held, release_shift s1 shift h, release_up s2 refl)
        (ground (arith, (shift_facts shift (ground arith)).1))

  event_interval : (st c : ℕ) (s : Pckb D) → (pckb_event st c s).interval ≡ s.interval
  unfolding pckb_event
  event_interval st c s = ground arith

  -- Each run of the work ends by scheduling the next one, 20 ms later in a probed driver, whatever was
  -- read; a failed read reports nothing.
  pub polls_again :
      (p : Platform D) (s : Pckb D)
      → (rest : List Effect) × ((pckb_work_handler p s).out
          ≡ schedule_delayed_work pckb_work s.interval ∷ rest)
        × ((pckb_work_handler p s).interval ≡ s.interval)
        × (((e : ℕ) × ((p.read_word s.dev pckb_reg).0 ≡ failure e) × (rest ≡ s.out))
            ⊎ ((v : ℕ) × ((p.read_word s.dev pckb_reg).0 ≡ value v)
                × (rest
                    ≡ (pckb_event
                        (v % 256)
                        (v / 256 % 256)
                        (record s { dev = (p.read_word s.dev pckb_reg).1 })).out)))
  unfolding pckb_work_handler
  polls_again p s = elim (Ret-cases (p.read_word s.dev pckb_reg).0) [
    | inl (v, e) ↦ (
      (pckb_event (v % 256) (v / 256 % 256)
          (record s { dev = (p.read_word s.dev pckb_reg).1 })).out,
      rw (pckb_work_handler, e) (rw event_interval refl),
      rw (pckb_work_handler, e) (event_interval _ _ _),
      inr (v, e, refl),
    )
    | inr (n, e) ↦
        (s.out, rw (pckb_work_handler, e) refl, rw (pckb_work_handler, e) refl, inl (n, e, refl))
  ]

-- ===== src/Fw/Scan/Distinct.antt =====
-- The list of the keys that are down never has one key twice.
use picocalc_ubuntu_kernel.Fw.Scan.Shrinks.{Shrinks, next_item_state-Shrinks}
use picocalc_ubuntu_kernel.Fw.Scan.{
  keyboard_process, scan_keys, List, Look, scan_order, ◌∷◌, leb, key_poll_time,
}
use mathlib.Core.Option.{none-ne-some}
use picocalc_ubuntu_kernel.Prelude.{
  Bool, none, false, true, ◌≤◌, ◌+◌, suc, Bool-cases, zero, if◌then◌else◌, ◌≢◌, ==_self, [],
}
use picocalc_ubuntu_kernel.Fw.Items.{
  key_list_size, find_item, Clock, is_of, scan_key, start_key, is_free,
}
use picocalc_ubuntu_kernel.Prelude.{
  ℕ, ◌<◌, ◌≡◌, Option-cases, arith, some, sym, ap, if_cases, inl, ℕ_discrete, inr, subst, ◌∙◌,
  ==_ne, ◌==◌,
}
use picocalc_ubuntu_kernel.Fw.State.{Firmware, ListItem}
use picocalc_ubuntu_kernel.Fw.Keys.{set_item, idle, sub32}

pub record Distinct (s : Firmware) : Type 0 where
  pub unique :
      (i j e : ℕ)
      → i < key_list_size
      → j < key_list_size
      → (s.kbd.list i).p_entry ≡ some e
      → (s.kbd.list j).p_entry ≡ some e
      → i ≡ j

Shrinks-Distinct : (s s' : Firmware) → Shrinks s s' → Distinct s → Distinct s'
unfolding Shrinks
Shrinks-Distinct s s' shrinks d = record {
  unique = λ i j e a b h k. d.unique i j e a b (shrinks i e h) (shrinks j e k);
}

-- A search that fails has tried every item.
find_item-none :
    (test : ListItem → Bool) (n i : ℕ) (list : ℕ → ListItem)
    → find_item test n i list ≡ none
    → (j : ℕ) → i ≤ j
    → j < i + n
    → test (list j) ≡ false
unfolding find_item
find_item-none test zero i list e j a b = absurd (omega (arith, a, b))
find_item-none test (suc n) i list e j a b =
    let pick = λ (hit : Bool). if hit then some i else find_item test n (suc i) list in
    elim (Bool-cases (test (list i))) [
      | inl here ↦ absurd (none-ne-some i (sym e ∙ ap pick here))
      | inr next ↦ elim (ℕ_discrete i j) [
        | yes same ↦ subst (λ k. test (list k) ≡ false) same next
        | no other ↦
            find_item-none test n (suc i) list (sym (ap pick next) ∙ e) j (omega (arith, a, other))
              (omega (arith, b))
      ]
    ]

is_of-here : (e : ℕ) (item : ListItem) → item.p_entry ≡ some e → is_of e item ≡ true
is_of-here e item h = rw h (==_self e)

-- The item that a new key takes.
taken_by : ℕ → ℕ → Firmware → Firmware
taken_by e i s = set_item i (record (s.kbd.list i) { p_entry = some e; item_state = idle }) s

taken_entry :
    (e i j : ℕ) (s : Firmware)
    → ((taken_by e i s).kbd.list j).p_entry ≡ (if i == j then some e else (s.kbd.list j).p_entry)
unfolding taken_by set_item
taken_entry e i j s = ground arith

taken-Distinct :
    (e i : ℕ) (s : Firmware)
    → ((j : ℕ) → j < key_list_size → (s.kbd.list j).p_entry ≢ some e)
    → Distinct s
    → Distinct (taken_by e i s)
taken-Distinct e i s absent d = record {
  unique = λ a b k ha hb x y.
      let x' = sym (taken_entry e i a s) ∙ x in
      let y' = sym (taken_entry e i b s) ∙ y in
      elim (ℕ_discrete i a) [
        | yes ia ↦ elim (ℕ_discrete i b) [
          | yes ib ↦ sym ia ∙ ib
          | no nb ↦
              let old : (s.kbd.list b).p_entry ≡ some k = (rw (==_ne i b nb) at y') in
              let new : some e ≡ some k = (rw (ia, ==_self a) at x') in
              absurd (absent b hb (old ∙ sym new))
        ]
        | no na ↦
            let old : (s.kbd.list a).p_entry ≡ some k = (rw (==_ne i a na) at x') in
            elim (ℕ_discrete i b) [
              | yes ib ↦
                  let new : some e ≡ some k = (rw (ib, ==_self b) at y') in
                  absurd (absent a ha (old ∙ sym new))
              | no nb ↦ d.unique a b k ha hb old (rw (==_ne i b nb) at y')
            ]
      ];
}

start_key-Distinct :
    (e : ℕ) (t : Clock) (s : Firmware)
    → find_item (is_of e) key_list_size 0 s.kbd.list ≡ none
    → Distinct s
    → Distinct (start_key e t s)
unfolding start_key taken_by
start_key-Distinct e t s absent d =
    elim (Option-cases (find_item is_free key_list_size 0 s.kbd.list)) [
      | inl none_free ↦ rw (start_key, none_free) d
      | inr (i, free) ↦
          rw (start_key, free)
            (Shrinks-Distinct (taken_by e i s) _
              (next_item_state-Shrinks i e true t (taken_by e i s))
              (taken-Distinct e i s
                (λ j small here. absurd (
                  ground (
                    arith,
                    is_of-here e (s.kbd.list j) here,
                    find_item-none (is_of e) key_list_size 0 s.kbd.list absent j (omega arith)
                        small,
                  )))
                d))
    ]

scan_key-Distinct :
    (e : ℕ) (down : Bool) (t : Clock) (s : Firmware) → Distinct s → Distinct (scan_key e down t s)
unfolding scan_key
scan_key-Distinct e down t s d =
    elim (Option-cases (find_item (is_of e) key_list_size 0 s.kbd.list)) [
      | inl absent ↦
          rw (scan_key, absent)
            (if_cases Distinct down (start_key e t s) s (λ _. start_key-Distinct e t s absent d)
              (λ _. d))
      | inr (i, found) ↦
          rw (scan_key, found) (Shrinks-Distinct s _ (next_item_state-Shrinks i e down t s) d)
    ]

scan_keys-Distinct :
    (es : List ℕ) (look : Look) (s : Firmware) → Distinct s → Distinct (scan_keys es look s)
unfolding scan_keys
scan_keys-Distinct [] look s d = d
scan_keys-Distinct (e ∷ es) look s d =
    scan_keys-Distinct es look _ (scan_key-Distinct e (look.is_pressed e) (look.clock e) s d)

-- Whatever the pins show, a scan leaves the list of the keys that are down without doubles: among the
-- ten items no two stand for one key, so that a key has one state, and one release ends it.
pub keys_once :
    (now finished : ℕ) (look : Look) (s : Firmware)
    → Distinct s
    → Distinct (keyboard_process now finished look s)
unfolding keyboard_process
keys_once now finished look s d =
    let scanned = scan_keys scan_order look s in
    let d' = scan_keys-Distinct scan_order look s d in
    if_cases Distinct (leb (sub32 now s.kbd.last_process_time) key_poll_time) _ _
      (λ _. record { unique = d.unique }) (λ _. record { unique = d'.unique })

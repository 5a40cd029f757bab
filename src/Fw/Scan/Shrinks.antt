-- ===== src/Fw/Scan/Shrinks.antt =====
-- Every step of a key's item: the list of the keys that are down can only lose keys.
use mathlib.Core.Option.{none-ne-some}
use picocalc_ubuntu_kernel.Prelude.{refl, Bool, none, false, true, ltb}
use picocalc_ubuntu_kernel.Fw.Items.{
  item_freed, item_held, item_pressed, next_item_state, update_locks, Clock, set_mod, hold_time,
}
use picocalc_ubuntu_kernel.Fw.Entries.{Entry, entry}
use picocalc_ubuntu_kernel.Prelude.{
  ℕ, ◌≡◌, Option-cases, arith, some, sym, ap, if_cases, inl, ℕ_discrete, inr, not, subst, ◌∙◌,
  ==_ne, ◌==◌, ◌&&◌,
}
use picocalc_ubuntu_kernel.Fw.State.{Firmware, ListItem, Keyboard, Mod, on_kbd}
use picocalc_ubuntu_kernel.Fw.Keys.{
  key_cb, on_overflow, alt_action, decide, plain_case, report, set_item, toggle_caps, transition_to,
  use_mods, alt_case, mod_code, sent_state, hold, idle, pressed, released, sub32,
}
use picocalc_ubuntu_kernel.Fw.Backlight.{lcd_backlight_update, kbd_backlight_update}
use picocalc_ubuntu_kernel.Fw.Regs.{reg_set_bit, reg_set_value}

-- No item gets a key that it did not have.
unfoldable pub Shrinks : Firmware → Firmware → Type 0
Shrinks s s' = (i e : ℕ) → (s'.kbd.list i).p_entry ≡ some e → (s.kbd.list i).p_entry ≡ some e

Shrinks-refl : (s : Firmware) → Shrinks s s
unfolding Shrinks
Shrinks-refl s i e h = h

Shrinks-trans : (s t u : Firmware) → Shrinks s t → Shrinks t u → Shrinks s u
unfolding Shrinks
Shrinks-trans s t u a b i e h = a i e (b i e h)

same_list-Shrinks : (s s' : Firmware) → s'.kbd.list ≡ s.kbd.list → Shrinks s s'
unfolding Shrinks
same_list-Shrinks s s' same i e h = sym (ap (λ l. (l i).p_entry) same) ∙ h

set_item-Shrinks :
    (i : ℕ) (item : ListItem) (s : Firmware)
    → ((e : ℕ) → item.p_entry ≡ some e → (s.kbd.list i).p_entry ≡ some e)
    → Shrinks s (set_item i item s)
unfolding Shrinks set_item
set_item-Shrinks i item s kept j e h = elim (ℕ_discrete i j) [
  | yes same ↦ subst (λ k. (s.kbd.list k).p_entry ≡ some e) same (kept e (ground (arith, h, same)))
  | no other ↦ (rw (==_ne i j other) at h)
]

key_cb-kbd : (key state : ℕ) (s : Firmware) → (key_cb key state s).kbd ≡ s.kbd
unfolding key_cb on_overflow reg_set_bit
key_cb-kbd key state s = ground arith

alt_action-kbd : (chr : ℕ) (s : Firmware) → (alt_action chr s).kbd ≡ s.kbd
unfolding alt_action lcd_backlight_update kbd_backlight_update reg_set_value
alt_action-kbd chr s = ground arith

use_mods-kbd : (en : Entry) (next : ℕ) (s : Firmware) → (use_mods en next s).2.kbd ≡ s.kbd
unfolding use_mods alt_case
use_mods-kbd en next s = ground (arith, alt_action-kbd en.chr s)

toggle_caps-list : (chr next : ℕ) (s : Firmware) → (toggle_caps chr next s).kbd.list ≡ s.kbd.list
unfolding toggle_caps
toggle_caps-list chr next s = ground arith

plain_case-list :
    (en : Entry) (next : ℕ) (s : Firmware) → (plain_case en next s).2.kbd.list ≡ s.kbd.list
unfolding plain_case
plain_case-list en next s =
    ground (arith, use_mods-kbd en next (toggle_caps en.chr next s), toggle_caps-list en.chr next s)

decide-list : (en : Entry) (next : ℕ) (s : Firmware) → (decide en next s).2.kbd.list ≡ s.kbd.list
unfolding decide
decide-list en next s = elim (Option-cases (mod_code en.mod_of)) [
  | inl e ↦ rw (decide, e) (plain_case-list en next s)
  | inr (c, e) ↦ rw (decide, e) refl
]

report-list : (e next : ℕ) (s : Firmware) → (report e next s).kbd.list ≡ s.kbd.list
unfolding report
report-list e next s =
    let chr = (decide (entry e) next s).0 in
    let s' = (decide (entry e) next s).2 in
    if_cases (λ (t : Firmware). t.kbd.list ≡ s.kbd.list)
      (not (chr == 0) && (decide (entry e) next s).1) (key_cb chr (sent_state chr next) s') s'
      (λ _.
        ap (λ k. k.list) (key_cb-kbd chr (sent_state chr next) s') ∙ decide-list (entry e) next s)
      (λ _. decide-list (entry e) next s)

transition_to-Shrinks : (i next : ℕ) (s : Firmware) → Shrinks s (transition_to i next s)
unfolding transition_to
transition_to-Shrinks i next s =
    let item : ListItem = record (s.kbd.list i) { item_state = next } in
    let s' = set_item i item s in
    let kept = set_item-Shrinks i item s (λ e h. h) in
    elim (Option-cases (s.kbd.list i).p_entry) [
      | inl e ↦ rw (transition_to, e) kept
      | inr (k, e) ↦
          rw (transition_to, e)
            (Shrinks-trans s s' _ kept (same_list-Shrinks s' _ (report-list k next s')))
    ]

-- What only changes the keyboard's other fields.
on_kbd-Shrinks :
    (f : Keyboard → Keyboard) (s : Firmware) → (f s.kbd).list ≡ s.kbd.list → Shrinks s (on_kbd f s)
on_kbd-Shrinks f s same = same_list-Shrinks s (on_kbd f s) same

locked_list :
    (m : Mod) (k : Keyboard)
    → (update_locks (record k { mods = set_mod m true k.mods })).list ≡ k.list
unfolding update_locks
locked_list m k = ground arith

item_pressed-Shrinks : (i e : ℕ) (t : Clock) (s : Firmware) → Shrinks s (item_pressed i e t s)
unfolding item_pressed
item_pressed-Shrinks i e t s =
    let m = (entry e).mod_of in
    let s1 = on_kbd (λ k. update_locks (record k { mods = set_mod m true k.mods })) s in
    let s2 = transition_to i pressed s1 in
    let item : ListItem = record (s2.kbd.list i) {
      hold_start_time = t.first;
      last_repeat_time = 0;
    } in
    Shrinks-trans s s2 (set_item i item s2)
      (Shrinks-trans s s1 s2 (same_list-Shrinks s s1 (locked_list m s.kbd))
        (transition_to-Shrinks i pressed s1))
      (set_item-Shrinks i item s2 (λ k h. h))

item_held-Shrinks :
    (i : ℕ) (down : Bool) (t : Clock) (s : Firmware) → Shrinks s (item_held i down t s)
unfolding item_held
item_held-Shrinks i down t s =
    let s' = transition_to i hold s in
    let item : ListItem = record (s'.kbd.list i) { last_repeat_time = t.third } in
    if_cases (Shrinks s) (not down) (transition_to i released s) _
      (λ _. transition_to-Shrinks i released s)
      λ _.
        if_cases (Shrinks s) (ltb hold_time (sub32 t.first (s.kbd.list i).hold_start_time)) _ s
          (λ _.
            if_cases (Shrinks s) (ltb 100 (sub32 t.second (s.kbd.list i).last_repeat_time))
              (set_item i item s') s
              (λ _.
                Shrinks-trans s s' (set_item i item s') (transition_to-Shrinks i hold s)
                  (set_item-Shrinks i item s' (λ k h. h)))
              (λ _. Shrinks-refl s))
          (λ _. Shrinks-refl s)

item_freed-Shrinks : (i e : ℕ) (s : Firmware) → Shrinks s (item_freed i e s)
unfolding item_freed
item_freed-Shrinks i e s =
    let m = (entry e).mod_of in
    let s1 = on_kbd (λ k. record k { mods = set_mod m false k.mods }) s in
    let item : ListItem = record (s1.kbd.list i) { p_entry = none } in
    let s2 = set_item i item s1 in
    Shrinks-trans s s2 (transition_to i idle s2)
      (Shrinks-trans s s1 s2 (same_list-Shrinks s s1 refl)
        (set_item-Shrinks i item s1 (λ k h. absurd (none-ne-some k h))))
      (transition_to-Shrinks i idle s2)

pub next_item_state-Shrinks :
    (i e : ℕ) (down : Bool) (t : Clock) (s : Firmware) → Shrinks s (next_item_state i e down t s)
unfolding next_item_state
next_item_state-Shrinks i e down t s =
    let st = (s.kbd.list i).item_state in
    if_cases (Shrinks s) (st == idle) _ _
      (λ _.
        if_cases (Shrinks s) down (item_pressed i e t s) s (λ _. item_pressed-Shrinks i e t s)
          (λ _. Shrinks-refl s))
      λ _.
        if_cases (Shrinks s) (st == pressed) _ _
          (λ _.
            if_cases (Shrinks s) (ltb hold_time (sub32 t.first (s.kbd.list i).hold_start_time))
              (transition_to i hold s) _ (λ _. transition_to-Shrinks i hold s)
              (λ _.
                if_cases (Shrinks s) down s (transition_to i released s) (λ _. Shrinks-refl s)
                  (λ _. transition_to-Shrinks i released s)))
          λ _.
            if_cases (Shrinks s) (st == hold) (item_held i down t s) _
              (λ _. item_held-Shrinks i down t s)
              λ _.
                if_cases (Shrinks s) (st == released) (item_freed i e s) s
                  (λ _. item_freed-Shrinks i e s) (λ _. Shrinks-refl s)

-- ===== src/Fw/Events/Scans.antt =====
-- The scan of the keys puts well-formed events only into the ring.
use picocalc_ubuntu_kernel.Fw.Events.{FedBy, Fed, IsEvent, key_cb-Fed}
use picocalc_ubuntu_kernel.Fw.Items.{
  item_freed, item_held, item_pressed, next_item_state, scan_key, start_key, Clock, find_item,
  hold_time, is_free, is_of, key_list_size,
}
use picocalc_ubuntu_kernel.Fw.Scan.{keyboard_process, scan_keys, Look, key_poll_time, scan_order}
use picocalc_ubuntu_kernel.Fw.Backlight.{lcd_backlight_update, kbd_backlight_update}
use picocalc_ubuntu_kernel.Fw.Entries.{Entry, entry, kbd_rows, btn_entries}
use picocalc_ubuntu_kernel.Fw.State.{Firmware, Mod, mod_none}
use picocalc_ubuntu_kernel.Fw.Regs.{reg_set_value}
use picocalc_ubuntu_kernel.Fw.Keys.{
  pressed, hold, released, decide, plain_case, use_mods, alt_case, toggle_caps, alt_action,
  mod_code, report, sent_state, transition_to, set_item, idle, sub32,
}
use picocalc_ubuntu_kernel.Prelude.{
  refl, List, All, ◌<◌, ◌≡◌, ◌∷◌, [], ◌⊎◌, if_cases, Bool, ltb, subst, ℕ, sym, true, not,
  Option-cases, arith, get_or, inl, some, suc, inr, zero, ◌==◌, ◌&&◌, ◌-◌, leb, none,
}

-- The decision on a key touches no event, and its character is a byte.
alt_action-fifo : (chr : ℕ) (s : Firmware) → (alt_action chr s).fifo ≡ s.fifo
unfolding alt_action lcd_backlight_update kbd_backlight_update reg_set_value
alt_action-fifo chr s = ground arith

use_mods-fifo : (en : Entry) (next : ℕ) (s : Firmware) → (use_mods en next s).2.fifo ≡ s.fifo
unfolding use_mods alt_case
use_mods-fifo en next s = ground (arith, alt_action-fifo en.chr s)

toggle_caps-fifo : (chr next : ℕ) (s : Firmware) → (toggle_caps chr next s).fifo ≡ s.fifo
unfolding toggle_caps
toggle_caps-fifo chr next s = ground arith

plain_case-fifo : (en : Entry) (next : ℕ) (s : Firmware) → (plain_case en next s).2.fifo ≡ s.fifo
unfolding plain_case
plain_case-fifo en next s =
    ground
      (arith, use_mods-fifo en next (toggle_caps en.chr next s), toggle_caps-fifo en.chr next s)

pub decide-fifo : (en : Entry) (next : ℕ) (s : Firmware) → (decide en next s).2.fifo ≡ s.fifo
unfolding decide
decide-fifo en next s = elim (Option-cases (mod_code en.mod_of)) [
  | inl e ↦ rw (decide, e) (plain_case-fifo en next s)
  | inr (c, e) ↦ rw (decide, e) refl
]

abbrev IsByteEntry : Entry → Type 0
IsByteEntry en = (en.chr < 256) × (en.symb < 256)

use_mods_byte :
    (en : Entry) (next : ℕ) (s : Firmware) → IsByteEntry en → (use_mods en next s).0 < 256
unfolding use_mods alt_case
use_mods_byte en next s b = ground arith

mod_code_byte : (m : Mod) (c : ℕ) → mod_code m ≡ some c → c < 256
unfolding mod_code
mod_code_byte mod_none c e = cc
mod_code_byte _ c e = ground arith

decide_byte : (en : Entry) (next : ℕ) (s : Firmware) → IsByteEntry en → (decide en next s).0 < 256
unfolding decide plain_case
decide_byte en next s b = elim (Option-cases (mod_code en.mod_of)) [
  | inl e ↦ rw (decide, e) (ground (arith, use_mods_byte en next (toggle_caps en.chr next s)))
  | inr (c, e) ↦ rw (decide, e) (ground (arith, mod_code_byte en.mod_of c e))
]

All-get_or {ℓ κ} :
    {A : Type ℓ} (P : A → Type κ) (xs : List A) (i : ℕ) (d : A) → All P xs → P d → P (get_or xs i d)
All-get_or P [] i d h k = k
All-get_or P (x ∷ xs) zero d h k = h.0
All-get_or P (x ∷ xs) (suc i) d h k = All-get_or P xs i d h.1 k

entry_byte : (e : ℕ) → IsByteEntry (entry e)
unfolding entry
entry_byte e =
    if_cases IsByteEntry (ltb e 56) _ _
      (λ _.
        All-get_or (λ (x : ℕ × ℕ). (x.0 < 256) × (x.1 < 256)) kbd_rows e (0, 0) (ground arith)
          (ground arith))
      (λ _. All-get_or IsByteEntry btn_entries (e - 56) _ (ground arith) (ground arith))

abbrev IsSent : ℕ → Type 0
IsSent next = (next ≡ pressed) ⊎ (next ≡ hold) ⊎ (next ≡ released)

report-Fed : (e next : ℕ) (s : Firmware) → IsSent next → FedBy s → FedBy (report e next s)
unfolding report
report-Fed e next s sent v =
    let chr = (decide (entry e) next s).0 in
    let s' = (decide (entry e) next s).2 in
    let v' : FedBy s' = subst Fed (sym (decide-fifo (entry e) next s)) v in
    let ev : IsEvent (record { key = chr; key_state = sent_state chr next }) = record {
      byte = decide_byte (entry e) next s (entry_byte e);
      known = ground arith;
    } in
    if_cases FedBy (not (chr == 0) && (decide (entry e) next s).1) _ s'
      (λ _. key_cb-Fed chr (sent_state chr next) s' ev v') (λ _. v')

-- A transition to a state that is sent, or of an item that is free.
transition_to-Fed :
    (i next : ℕ) (s : Firmware)
    → (IsSent next) ⊎ ((s.kbd.list i).p_entry ≡ none)
    → FedBy s
    → FedBy (transition_to i next s)
unfolding transition_to set_item
transition_to-Fed i next s why v = elim (Option-cases (s.kbd.list i).p_entry) [
  | inl e ↦ rw (transition_to, e) v
  | inr (k, e) ↦ rw (transition_to, e) (report-Fed k next _ (ground (arith, why)) v)
]

item_pressed-Fed : (i e : ℕ) (t : Clock) (s : Firmware) → FedBy s → FedBy (item_pressed i e t s)
unfolding item_pressed set_item
item_pressed-Fed i e t s v = transition_to-Fed i pressed _ (inl (inl refl)) v

item_held-Fed :
    (i : ℕ) (down : Bool) (t : Clock) (s : Firmware) → FedBy s → FedBy (item_held i down t s)
unfolding item_held set_item
item_held-Fed i down t s v =
    if_cases FedBy (not down) _ _ (λ _. transition_to-Fed i released s (inl (inr (inr refl))) v)
      λ _.
        if_cases FedBy (ltb hold_time (sub32 t.first (s.kbd.list i).hold_start_time)) _ s
          (λ _.
            if_cases FedBy (ltb 100 (sub32 t.second (s.kbd.list i).last_repeat_time)) _ s
              (λ _. transition_to-Fed i hold s (inl (inr (inl refl))) v) (λ _. v))
          (λ _. v)

item_freed-Fed : (i e : ℕ) (s : Firmware) → FedBy s → FedBy (item_freed i e s)
unfolding item_freed set_item
item_freed-Fed i e s v = transition_to-Fed i idle _ (inr (ground arith)) v

pub next_item_state-Fed :
    (i e : ℕ) (down : Bool) (t : Clock) (s : Firmware)
    → FedBy s
    → FedBy (next_item_state i e down t s)
unfolding next_item_state
next_item_state-Fed i e down t s v =
    let st = (s.kbd.list i).item_state in
    if_cases FedBy (st == idle) _ _
      (λ _. if_cases FedBy down _ s (λ _. item_pressed-Fed i e t s v) (λ _. v))
      λ _.
        if_cases FedBy (st == pressed) _ _
          (λ _.
            if_cases FedBy (ltb hold_time (sub32 t.first (s.kbd.list i).hold_start_time)) _ _
              (λ _. transition_to-Fed i hold s (inl (inr (inl refl))) v)
              (λ _.
                if_cases FedBy down s _ (λ _. v)
                  (λ _. transition_to-Fed i released s (inl (inr (inr refl))) v)))
          λ _.
            if_cases FedBy (st == hold) _ _ (λ _. item_held-Fed i down t s v)
              (λ _. if_cases FedBy (st == released) _ s (λ _. item_freed-Fed i e s v) (λ _. v))

start_key-Fed : (e : ℕ) (t : Clock) (s : Firmware) → FedBy s → FedBy (start_key e t s)
unfolding start_key set_item
start_key-Fed e t s v = elim (Option-cases (find_item is_free key_list_size 0 s.kbd.list)) [
  | inl none_free ↦ rw (start_key, none_free) v
  | inr (i, free) ↦ rw (start_key, free) (next_item_state-Fed i e true t _ v)
]

scan_key-Fed :
    (e : ℕ) (down : Bool) (t : Clock) (s : Firmware) → FedBy s → FedBy (scan_key e down t s)
unfolding scan_key
scan_key-Fed e down t s v = elim (Option-cases (find_item (is_of e) key_list_size 0 s.kbd.list)) [
  | inl absent ↦
      rw (scan_key, absent) (if_cases FedBy down _ s (λ _. start_key-Fed e t s v) (λ _. v))
  | inr (i, found) ↦ rw (scan_key, found) (next_item_state-Fed i e down t s v)
]

scan_keys-Fed : (es : List ℕ) (look : Look) (s : Firmware) → FedBy s → FedBy (scan_keys es look s)
unfolding scan_keys
scan_keys-Fed [] look s v = v
scan_keys-Fed (e ∷ es) look s v =
    scan_keys-Fed es look _ (scan_key-Fed e (look.is_pressed e) (look.clock e) s v)

pub keyboard_process-Fed :
    (now finished : ℕ) (look : Look) (s : Firmware)
    → FedBy s
    → FedBy (keyboard_process now finished look s)
unfolding keyboard_process
keyboard_process-Fed now finished look s v =
    if_cases FedBy (leb (sub32 now s.kbd.last_process_time) key_poll_time) _ _ (λ _. v)
      (λ _. scan_keys-Fed scan_order look s v)

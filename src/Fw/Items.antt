-- ===== src/Fw/Items.antt =====
-- keyboard.ino: the list of the keys that are down, next_item_state and the scan of one key.
use picocalc_ubuntu_kernel.Fw.Keys.{set_item, sub32, transition_to, hold, idle, pressed, released}
use picocalc_ubuntu_kernel.Fw.Entries.{entry}
use picocalc_ubuntu_kernel.Prelude.{
  ℕ, suc, zero, Bool, if◌then◌else◌, Option, false, ltb, not, some, true, ◌&&◌, ◌==◌, ◌||◌, none,
}
use picocalc_ubuntu_kernel.Fw.State.{
  mod_none, mod_sym, mod_alt, mod_shl, mod_shr, mod_ctrl, Firmware, on_kbd, Keyboard, ListItem, Mod,
  Mods,
}

unfoldable pub set_mod : Mod → Bool → Mods → Mods
set_mod mod_none b m = m
set_mod mod_sym b m = record m { sym_held = b }
set_mod mod_alt b m = record m { alt_held = b }
set_mod mod_shl b m = record m { shl_held = b }
set_mod mod_shr b m = record m { shr_held = b }
set_mod mod_ctrl b m = record m { ctrl_held = b }

-- The lock keys, as a press updates them.
unfoldable pub update_locks : Keyboard → Keyboard
update_locks k =
    let m = k.mods in
    let shift = m.shl_held || m.shr_held in
    let k1 : Keyboard =
      if not k.capslock_changed && (m.shr_held && m.alt_held)
      then record k { capslock = true; capslock_changed = true }
      else k in
    let k2 : Keyboard =
      if not k1.numlock_changed && (m.shl_held && m.alt_held)
      then record k1 { numlock = true; numlock_changed = true }
      else k1 in
    let k3 : Keyboard =
      if not k2.capslock_changed && shift
      then record k2 { capslock = false; capslock_changed = true }
      else k2 in
    let k4 : Keyboard =
      if not k3.numlock_changed && shift
      then record k3 { numlock = false; numlock_changed = true }
      else k3 in
    if m.alt_held then k4 else record k4 { capslock_changed = false; numlock_changed = false }

abbrev pub hold_time : ℕ
hold_time = 300

-- The readings of the clock that one call makes, in their order.
pub record Clock : Type 0 where
  pub first : ℕ
  pub second : ℕ
  pub third : ℕ

unfoldable pub item_pressed : ℕ → ℕ → Clock → Firmware → Firmware
item_pressed i e t s =
    let m = (entry e).mod_of in
    let s1 = on_kbd (λ k. update_locks (record k { mods = set_mod m true k.mods })) s in
    let s2 = transition_to i pressed s1 in
    set_item i (record (s2.kbd.list i) { hold_start_time = t.first; last_repeat_time = 0 }) s2

unfoldable pub item_held : ℕ → Bool → Clock → Firmware → Firmware
item_held i down t s =
    let item = s.kbd.list i in
    let s' = transition_to i hold s in
    if not down
    then transition_to i released s
    else if ltb hold_time (sub32 t.first item.hold_start_time)
    then if ltb 100 (sub32 t.second item.last_repeat_time)
      then set_item i (record (s'.kbd.list i) { last_repeat_time = t.third }) s'
      else s
    else s

unfoldable pub item_freed : ℕ → ℕ → Firmware → Firmware
item_freed i e s =
    let m = (entry e).mod_of in
    let s1 = on_kbd (λ k. record k { mods = set_mod m false k.mods }) s in
    transition_to i idle (set_item i (record (s1.kbd.list i) { p_entry = none }) s1)

-- One look at item `i`, which belongs to the key `e`.
unfoldable pub next_item_state : ℕ → ℕ → Bool → Clock → Firmware → Firmware
next_item_state i e down t s =
    let item = s.kbd.list i in
    let long = ltb hold_time (sub32 t.first item.hold_start_time) in
    if item.item_state == idle
    then if down then item_pressed i e t s else s
    else if item.item_state == pressed
    then if long then transition_to i hold s else if down then s else transition_to i released s
    else if item.item_state == hold
    then item_held i down t s
    else if item.item_state == released
    then item_freed i e s
    else s

abbrev pub key_list_size : ℕ
key_list_size = 10

-- The first of the `n` items from index `i` that passes a test.
unfoldable pub find_item : (ListItem → Bool) → ℕ → ℕ → (ℕ → ListItem) → Option ℕ
find_item test zero i list = none
find_item test (suc n) i list =
    let rest = find_item test n (suc i) list in if test (list i) then some i else rest

abbrev pub is_of : ℕ → ListItem → Bool
is_of e item = elim item.p_entry [ none ↦ false | some x ↦ x == e ]

abbrev pub is_free : ListItem → Bool
is_free item = elim item.p_entry [ none ↦ true | some x ↦ false ]

-- A key that comes down takes the first free item, if there is one.
unfoldable pub start_key : ℕ → Clock → Firmware → Firmware
start_key e t s = elim (find_item is_free key_list_size 0 s.kbd.list) [
  | none ↦ s
  | some i ↦
      next_item_state i e true t
        (set_item i (record (s.kbd.list i) { p_entry = some e; item_state = idle }) s)
]

-- The body of the two loops for one key.
unfoldable pub scan_key : ℕ → Bool → Clock → Firmware → Firmware
scan_key e down t s = elim (find_item (is_of e) key_list_size 0 s.kbd.list) [
  | some i ↦ next_item_state i e down t s
  | none ↦ if down then start_key e t s else s
]

-- ===== src/Fw/Keys.antt =====
-- keyboard.ino: what a key's change of state reports, and the scan of all keys. `key_cb` of
-- picocalc_keyboard.ino is the key callback; no lock callback is ever set.
use picocalc_ubuntu_kernel.Fw.Regs.Ids.{
  reg_id_cfg, cfg_key_int, cfg_report_mods, cfg_use_mods, lcd_backlight_step, kbd_backlight_step,
  reg_id_int, int_key, cfg_overflow_int, int_overflow, cfg_overflow_on,
}
use picocalc_ubuntu_kernel.Fw.Backlight.{lcd_backlight_update, kbd_backlight_update}
use picocalc_ubuntu_kernel.Fw.Regs.{reg_is_bit_set, reg_set_bit}
use picocalc_ubuntu_kernel.Fw.Fifo.{KeyItem, fifo_enqueue, fifo_enqueue_force, fifo_flush}
use picocalc_ubuntu_kernel.Fw.Entries.{Entry, entry}
use picocalc_ubuntu_kernel.Prelude.{
  ℕ, Bool, if◌then◌else◌, ◌+◌, Option, leb, not, some, true, update, ◌&&◌, ◌==◌, ◌^◌, ◌||◌, none,
  ◌-◌, ◌%◌,
}
use picocalc_ubuntu_kernel.Prelude.Int.{pos, negsuc}
use picocalc_ubuntu_kernel.Fw.State.{
  mod_none, mod_sym, mod_alt, mod_shl, mod_shr, mod_ctrl, Firmware, act, on_kbd, ListItem, Mod,
  show_bat_segs,
}

-- enum key_state
abbrev pub idle : ℕ
idle = 0

abbrev pub pressed : ℕ
pressed = 1

abbrev pub hold : ℕ
hold = 2

abbrev pub released : ℕ
released = 3

abbrev pub key_caps_lock : ℕ
key_caps_lock = 0xc1

abbrev pub key_insert_code : ℕ
key_insert_code = 0xd1

-- a - b of two `unsigned long`s
abbrev pub sub32 : ℕ → ℕ → ℕ
sub32 a b = (a + (2 ^ 32 - b % 2 ^ 32)) % 2 ^ 32

-- An event that the full ring refused: the interrupt's bit, and the event in place of the oldest one.
unfoldable pub on_overflow : KeyItem → Firmware → Firmware
on_overflow item s =
    let noted =
      if reg_is_bit_set reg_id_cfg cfg_overflow_int s
      then reg_set_bit reg_id_int int_overflow s
      else s in
    if reg_is_bit_set reg_id_cfg cfg_overflow_on noted
    then record noted { fifo = fifo_enqueue_force item noted.fifo }
    else noted

-- An event for the driver: before the end of setup it only empties the ring.
unfoldable pub key_cb : ℕ → ℕ → Firmware → Firmware
key_cb key state s =
    let item : KeyItem = record { key = key; key_state = state } in
    let flagged =
      if reg_is_bit_set reg_id_cfg cfg_key_int s then reg_set_bit reg_id_int int_key s else s in
    let (done, f) = fifo_enqueue item flagged.fifo in
    let kept : Firmware = record flagged { fifo = f } in
    if not s.keycb_start
    then record s { fifo = fifo_flush s.fifo }
    else if done
    then kept
    else on_overflow item kept

-- The code of a modifier, where modifiers are reported.
unfoldable pub mod_code : Mod → Option ℕ
mod_code mod_none = none
mod_code mod_sym = some 0xa4
mod_code mod_alt = some 0xa1
mod_code mod_shl = some 0xa2
mod_code mod_shr = some 0xa3
mod_code mod_ctrl = some 0xa5

abbrev pub is_letter : ℕ → Bool
is_letter c = leb 65 c && leb c 90

-- `,`, `.`, space and B
abbrev pub is_alt_key : ℕ → Bool
is_alt_key c = c == 44 || c == 46 || c == 32 || c == 66

abbrev pub is_edge : ℕ → Bool
is_edge next = next == pressed || next == released

-- What a release with Alt does.
unfoldable pub alt_action : ℕ → Firmware → Firmware
alt_action chr s =
    if chr == 44
    then lcd_backlight_update (negsuc 15) s
    else if chr == 46
    then lcd_backlight_update (pos lcd_backlight_step) s
    else if chr == 32
    then kbd_backlight_update (pos kbd_backlight_step) s
    else if chr == 66
    then act show_bat_segs s
    else s

-- The character that is reported, whether it is, and the state then: with Alt.
unfoldable pub alt_case : ℕ → ℕ → Firmware → ℕ × Bool × Firmware
alt_case chr next s = (
  if is_edge next && chr == 73 then key_insert_code else chr,
  not (is_edge next && is_alt_key chr),
  if next == released then alt_action chr s else s,
)

-- The same where CFG_USE_MODS is set.
unfoldable pub use_mods : Entry → ℕ → Firmware → ℕ × Bool × Firmware
use_mods en next s =
    let chr = en.chr in
    let m = s.kbd.mods in
    let shift = m.shl_held || m.shr_held in
    if shift && not (is_letter chr)
    then (en.symb, true, s)
    else if s.kbd.capslock && is_letter chr
    then (chr, true, s)
    else if m.alt_held || s.kbd.numlock
    then alt_case chr next s
    else if not shift && is_letter chr
    then (chr + 32, true, s)
    else (chr, true, s)

unfoldable pub toggle_caps : ℕ → ℕ → Firmware → Firmware
toggle_caps chr next s =
    if chr == key_caps_lock && next == pressed
    then on_kbd (λ k. record k { capslock = not k.capslock; capslock_changed = true }) s
    else s

-- The `default` of the switch, for a key that is no modifier.
unfoldable pub plain_case : Entry → ℕ → Firmware → ℕ × Bool × Firmware
plain_case en next s =
    let s1 = toggle_caps en.chr next s in
    if reg_is_bit_set reg_id_cfg cfg_use_mods s1 then use_mods en next s1 else (en.chr, true, s1)

unfoldable pub decide : Entry → ℕ → Firmware → ℕ × Bool × Firmware
decide en next s = elim (mod_code en.mod_of) [
  | some code ↦ (if reg_is_bit_set reg_id_cfg cfg_report_mods s then code else en.chr, true, s)
  | none ↦ plain_case en next s
]

-- A key that is held repeats as presses if it is one of these.
unfoldable pub repeats : ℕ → Bool
repeats c =
    leb 32 c && leb c 127
    || c == 0x0a
    || c == 0x09
    || c == 0xd4
    || c == 0x08
    || c == 0xb5
    || c == 0xb6
    || c == 0xb7
    || c == 0xb4

abbrev pub sent_state : ℕ → ℕ → ℕ
sent_state chr next = if next == hold && repeats chr then pressed else next

unfoldable pub set_item : ℕ → ListItem → Firmware → Firmware
set_item i item s = on_kbd (λ k. record k { list = update k.list i item }) s

-- What is reported of the key `e` that enters the state `next`.
unfoldable pub report : ℕ → ℕ → Firmware → Firmware
report e next s =
    let (chr, output, s') = decide (entry e) next s in
    if not (chr == 0) && output then key_cb chr (sent_state chr next) s' else s'

-- Item `i` of the list enters the state `next`.
unfoldable pub transition_to : ℕ → ℕ → Firmware → Firmware
transition_to i next s =
    let item = s.kbd.list i in
    let s' = set_item i (record item { item_state = next }) s in
    elim item.p_entry [ none ↦ s' | some e ↦ report e next s' ]

-- ===== src/Fw/Scan.antt =====
-- keyboard_process: one look at every key, and what the matrix and joystick registers show of it.
pub mod Shrinks
pub mod Distinct
use picocalc_ubuntu_kernel.Fw.Items.{Clock, scan_key}
use picocalc_ubuntu_kernel.Fw.Keys.{sub32}
use picocalc_ubuntu_kernel.Fw.State.{Firmware, on_kbd}
use picocalc_ubuntu_kernel.Prelude.{
  ℕ, Bool, List, tabulate, ◌+◌, if◌then◌else◌, ◌*◌, ◌++◌, ◌∷◌, leb, ltb, ◌==◌, [],
}

-- What the pins say of each key, by its index, and the clock for each.
pub record Look : Type 0 where
  pub is_pressed : ℕ → Bool
  pub clock : ℕ → Clock

-- The keys in the order in which they are looked at: column by column, then the buttons.
unfoldable pub column : ℕ → List ℕ
column c = tabulate 7 (λ r. r * 8 + c)

unfoldable pub scan_order : List ℕ
unfolding column tabulate
scan_order =
    (column 0 ++ column 1 ++ column 2 ++ column 3 ++ column 4 ++ column 5 ++ column 6 ++ column 7)
    ++ tabulate 12 (λ b. 56 + b)

unfoldable pub scan_keys : List ℕ → Look → Firmware → Firmware
scan_keys [] look s = s
scan_keys (e ∷ es) look s = scan_keys es look (scan_key e (look.is_pressed e) (look.clock e) s)

abbrev pub high_bit : Bool → ℕ → ℕ
high_bit down bit = if down then 0 else bit

-- The rows of a column as bits, low for a pressed key, and the button above them.
unfoldable pub column_bits : Look → ℕ → ℕ
column_bits look c =
    high_bit (look.is_pressed c) 1
    + high_bit (look.is_pressed (8 + c)) 2
    + high_bit (look.is_pressed (16 + c)) 4
    + high_bit (look.is_pressed (24 + c)) 8
    + high_bit (look.is_pressed (32 + c)) 16
    + high_bit (look.is_pressed (40 + c)) 32
    + high_bit (look.is_pressed (48 + c)) 64
    + high_bit (look.is_pressed (56 + c)) 128

-- The arrow buttons, and the key of column 1 and row 4, over 0xff.
unfoldable pub joystick_bits : Look → ℕ
joystick_bits look =
    high_bit (look.is_pressed 64) 1
    + high_bit (look.is_pressed 65) 2
    + high_bit (look.is_pressed 66) 4
    + high_bit (look.is_pressed 67) 8
    + high_bit (look.is_pressed 33) 16
    + 224

abbrev pub key_poll_time : ℕ
key_poll_time = 16

-- `now` is read before the scan, and `finished` behind it.
unfoldable pub keyboard_process : ℕ → ℕ → Look → Firmware → Firmware
keyboard_process now finished look s =
    let scanned = scan_keys scan_order look s in
    let noted = on_kbd (λ k. record k { last_process_time = finished }) scanned in
    if leb (sub32 now s.kbd.last_process_time) key_poll_time
    then record s { js_bits = 0xff }
    else record noted {
      js_bits = joystick_bits look;
      io_matrix =
          λ c. if ltb c 8 then column_bits look c else if c == 8 then 0xff else s.io_matrix c;
    }

-- ===== src/Fw/Entries.antt =====
-- The keys of keyboard.ino: kbd_entries, row by row, and btn_entries behind it. A key is named by its
-- index. Characters are their codes; an omitted member is 0.
use picocalc_ubuntu_kernel.Prelude.{ℕ, List, [], ◌∷◌, ltb, get_or, if◌then◌else◌, ◌-◌}
use picocalc_ubuntu_kernel.Fw.State.{Mod, mod_none, mod_alt, mod_ctrl, mod_shl, mod_shr}

pub record Entry : Type 0 where
  pub chr : ℕ
  pub symb : ℕ
  pub mod_of : Mod

abbrev pub kbd_rows : List (ℕ × ℕ)
kbd_rows =
    (0x85, 0x90)
    ∷ (0x84, 0x89)
    ∷ (0x83, 0x88)
    ∷ (0x82, 0x87)
    ∷ (0x81, 0x86)
    ∷ (0x60, 0x7e)
    ∷ (0x33, 0x23)
    ∷ (0x32, 0x40)
    ∷ (0x08, 0x00)
    ∷ (0xd4, 0xd5)
    ∷ (0xc1, 0x00)
    ∷ (0x09, 0xd2)
    ∷ (0xb1, 0xd0)
    ∷ (0x34, 0x24)
    ∷ (0x45, 0x00)
    ∷ (0x57, 0x00)
    ∷ (0x50, 0x00)
    ∷ (0x3d, 0x2b)
    ∷ (0x2d, 0x5f)
    ∷ (0x5c, 0x7c)
    ∷ (0x2f, 0x3f)
    ∷ (0x52, 0x00)
    ∷ (0x53, 0x00)
    ∷ (0x31, 0x21)
    ∷ (0x0a, 0xd1)
    ∷ (0x38, 0x2a)
    ∷ (0x37, 0x26)
    ∷ (0x36, 0x5e)
    ∷ (0x35, 0x25)
    ∷ (0x46, 0x00)
    ∷ (0x58, 0x00)
    ∷ (0x51, 0x00)
    ∷ (0x2e, 0x3e)
    ∷ (0x49, 0x00)
    ∷ (0x55, 0x00)
    ∷ (0x59, 0x00)
    ∷ (0x54, 0x00)
    ∷ (0x56, 0x00)
    ∷ (0x3b, 0x3a)
    ∷ (0x41, 0x00)
    ∷ (0x4c, 0x00)
    ∷ (0x4b, 0x00)
    ∷ (0x4a, 0x00)
    ∷ (0x48, 0x00)
    ∷ (0x47, 0x00)
    ∷ (0x43, 0x00)
    ∷ (0x27, 0x22)
    ∷ (0x5a, 0x00)
    ∷ (0x4f, 0x00)
    ∷ (0x2c, 0x3c)
    ∷ (0x4d, 0x00)
    ∷ (0x4e, 0x00)
    ∷ (0x42, 0x00)
    ∷ (0x44, 0x00)
    ∷ (0x20, 0x00)
    ∷ (0x00, 0x00)
    ∷ []

abbrev pub btn_entries : List Entry
btn_entries =
    record { chr = 0x00; symb = 0x00; mod_of = mod_alt }
    ∷ record { chr = 0x00; symb = 0x00; mod_of = mod_ctrl }
    ∷ record { chr = 0x00; symb = 0x00; mod_of = mod_shl }
    ∷ record { chr = 0x00; symb = 0x00; mod_of = mod_shr }
    ∷ record { chr = 0x30; symb = 0x29; mod_of = mod_none }
    ∷ record { chr = 0x39; symb = 0x28; mod_of = mod_none }
    ∷ record { chr = 0x5d; symb = 0x7d; mod_of = mod_none }
    ∷ record { chr = 0x5b; symb = 0x7b; mod_of = mod_none }
    ∷ record { chr = 0xb7; symb = 0x00; mod_of = mod_none }
    ∷ record { chr = 0xb5; symb = 0xd6; mod_of = mod_none }
    ∷ record { chr = 0xb6; symb = 0xd7; mod_of = mod_none }
    ∷ record { chr = 0xb4; symb = 0x00; mod_of = mod_none }
    ∷ []

-- The keys of the matrix are 0 to 55, the buttons 56 to 67.
abbrev pub num_keys : ℕ
num_keys = 68

abbrev pub kbd_entry : ℕ × ℕ → Entry
kbd_entry (c, s) = record { chr = c; symb = s; mod_of = mod_none }

unfoldable pub entry : ℕ → Entry
entry e =
    if ltb e 56
    then kbd_entry (get_or kbd_rows e (0, 0))
    else get_or btn_entries (e - 56) (record { chr = 0; symb = 0; mod_of = mod_none })

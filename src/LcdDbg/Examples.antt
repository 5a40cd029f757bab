-- ===== src/LcdDbg/Examples.antt =====
-- The debug module on a bus that logs nothing and always answers, with the kernel's reading of
-- hexadecimal digits written out.
use picocalc_ubuntu_kernel.LcdDbg.Parse.{parse_ends}
use picocalc_ubuntu_kernel.Prelude.{
  List, Option, false, none, refl, some, true, ℕ, [], if◌then◌else◌, ◌<◌, ◌∷◌, ◌≡◌, arith, leb,
  length, ◌*◌, ◌++◌, ◌&&◌, ◌+◌, ◌≤◌, ◌-◌, ◌⊎◌,
}
use picocalc_ubuntu_kernel.LcdDbg.Wire.{on_bus, bus_state, Sent, lcd_write_unlocks, wire}
use picocalc_ubuntu_kernel.LcdDbg.{
  Digits, Spi, Dbg, Module, Found, ili9488_dbg_init, lcd_write, parse_bytes, ili9488_dbg_exit,
  write_store, value, einval,
}
use picocalc_ubuntu_kernel.LcdDbg.Print.{ReadsHex, digit, typed, bytes_of, write_roundtrip}
use picocalc_ubuntu_kernel.LcdDbg.Init.{Works, refs_balanced}

unfoldable nibble : ℕ → Option ℕ
nibble c =
    if leb 48 c && leb c 57
    then some (c - 48)
    else if leb 97 c && leb c 102
    then some (c - 87)
    else none

unfoldable hex : Digits → Option ℕ
unfolding nibble
hex [] = none
hex (a ∷ []) = nibble a
hex (a ∷ b ∷ []) = elim (nibble a) [
  | none ↦ none
  | some h ↦ elim (nibble b) [ none ↦ none | some l ↦ some (16 * h + l) ]
]
hex (a ∷ b ∷ c ∷ cs) = none

nibble-digit : (d : ℕ) → d < 16 → nibble (digit d) ≡ some d
unfolding nibble
nibble-digit d h = ground arith

hex-ReadsHex : ReadsHex hex
unfolding hex
hex-ReadsHex h l small_h small_l = ground (arith, nibble-digit h small_h, nibble-digit l small_l)

abbrev good_bus : Spi Unit
good_bus = record { sync = λ d bytes. (none, d) }

abbrev bad_bus : Spi Unit
bad_bus = record { sync = λ d bytes. (some 5, d) }

good_bus-Works : Works good_bus
good_bus-Works d bytes = refl

abbrev ready : Dbg Unit
ready = record { g_spi = true; g_dc_gpio = true; g_kobj = true; dev = tt; signals = [] }

abbrev idle : Module Unit
idle = record { dbg = record ready { g_spi = false }; refs = 1 }

parse_ends_example :
    (out : List ℕ) × (parse_bytes hex 7 (51 ∷ 54 ∷ 32 ∷ 52 ∷ 56 ∷ 120 ∷ []) [] ≡ some out)
    × (length out ≤ 64)
parse_ends_example = parse_ends hex (51 ∷ 54 ∷ 32 ∷ 52 ∷ 56 ∷ 120 ∷ [])

abbrev two_bytes : List ℕ
two_bytes = 0x36 ∷ 0x48 ∷ []

lcd_write_unlocks_example :
    ((true ≡ false) ⊎ (two_bytes ≡ [])) × (lcd_write bad_bus two_bytes ready ≡ (some einval, ready))
    ⊎ ((command : ℕ) × (args : List ℕ) × (true ≡ true)
        × (two_bytes ≡ command ∷ args)
        × Sent bad_bus command ready (lcd_write bad_bus two_bytes ready).1)
unfolding bus_state on_bus
lcd_write_unlocks_example = lcd_write_unlocks bad_bus two_bytes ready refl

write_roundtrip_example :
    let (ret, w') = write_store good_bus hex (51 ∷ 54 ∷ 32 ∷ 52 ∷ 56 ∷ 10 ∷ []) ready in
    (ret ≡ value 6) × (w'.signals ≡ wire true 0x36 (0x48 ∷ []) ++ [])
unfolding typed bytes_of
write_roundtrip_example =
    write_roundtrip good_bus hex 0x36 (32 ∷ []) ((0x48, 10 ∷ []) ∷ []) ready good_bus-Works
      hex-ReadsHex ((omega arith, (refl, tt)), ((omega arith, (refl, tt)), tt)) (omega arith) refl

abbrev no_groups : Found
no_groups = record { device = true; held = true; dc_valid = true; kobject = true; groups = some 12 }

refs_balanced_example :
    let (ret, m') = ili9488_dbg_init no_groups idle in
    ((e : ℕ) → ret ≡ some e → (m'.refs ≡ 1) × (m'.dbg.g_spi ≡ false))
    × (ret ≡ none → ((ili9488_dbg_exit m').refs ≡ 1) × (m'.dbg.g_spi ≡ true))
refs_balanced_example = refs_balanced no_groups idle refl

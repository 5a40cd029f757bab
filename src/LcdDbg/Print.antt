-- ===== src/LcdDbg/Print.antt =====
-- A text of two hexadecimal digits for each byte is taken for these bytes.
use picocalc_ubuntu_kernel.LcdDbg.Wire.{wire, lcd_write-wire}
use picocalc_ubuntu_kernel.Prelude.{length-append, length, ◌≢◌, none, ◌==◌}
use picocalc_ubuntu_kernel.Prelude.{zero}
use picocalc_ubuntu_kernel.LcdDbg.Parse.{round_end, round_byte}
use picocalc_ubuntu_kernel.Prelude.{
  All, ℕ, if◌then◌else◌, ◌<◌, ltb, ◌∷◌, ◌≡◌, ◌+◌, ◌/◌, arith, refl, ◌%◌, ◌++◌, ◌*◌, ◌≤◌, ◌∙◌, ap,
  sym,
}
use picocalc_ubuntu_kernel.LcdDbg.{
  Digits, skip_space, take_digits, Option, is_space, false, true, some, parse_bytes, suc, is_init,
  parsed, write_store, Spi, Dbg, value, Ret, lcd_write,
}
use mathlib.Core.List.{append-nil, append_assoc, List, []}

abbrev pub digit : ℕ → ℕ
digit d = if ltb d 10 then 48 + d else 87 + d

-- Each byte with the white space behind it.
abbrev pub Typed : Type 0
Typed = List (ℕ × List ℕ)

unfoldable pub typed : Typed → List ℕ
typed [] = []
typed ((b, gap) ∷ rest) = digit (b / 16) ∷ digit (b % 16) ∷ (gap ++ typed rest)

unfoldable pub bytes_of : Typed → List ℕ
bytes_of [] = []
bytes_of ((b, gap) ∷ rest) = b ∷ bytes_of rest

-- Bytes, with nothing but white space between them.
abbrev pub IsTyped : Typed → Type 0
IsTyped items = All (λ (x : ℕ × List ℕ). (x.0 < 256) × All (λ c. is_space c ≡ true) x.1) items

skip_gap :
    (gap text : List ℕ)
    → All (λ c. is_space c ≡ true) gap
    → skip_space (gap ++ text) ≡ skip_space text
unfolding skip_space
skip_gap [] text h = refl
skip_gap (c ∷ gap) text h = rw h.0 (skip_gap gap text h.1)

digit_dark : (d : ℕ) → d < 16 → is_space (digit d) ≡ false
digit_dark d h = ground arith

skip_digit : (d : ℕ) (rest : List ℕ) → d < 16 → skip_space (digit d ∷ rest) ≡ digit d ∷ rest
unfolding skip_space
skip_digit d rest h = rw (digit_dark d h) refl

take_two :
    (c d : ℕ) (rest : List ℕ) → d < 16 → take_digits c (digit d ∷ rest) ≡ (c ∷ digit d ∷ [], rest)
unfolding take_digits
take_two c d rest h = rw (digit_dark d h) refl

-- kstrtou8 with base 16 reads two digits as the kernel documents.
abbrev pub ReadsHex : (Digits → Option ℕ) → Type 0
ReadsHex kstrtou8 =
    (h l : ℕ) → h < 16 → l < 16 → kstrtou8 (digit h ∷ digit l ∷ []) ≡ some (16 * h + l)

length-typed : (items : Typed) → length items ≤ length (typed items)
unfolding typed
length-typed [] = omega arith
length-typed ((b, gap) ∷ rest) = omega (arith, length-typed rest, length-append gap (typed rest))

module _ (kstrtou8 : Digits → Option ℕ) (hex : ReadsHex kstrtou8) where
  parse_typed :
      (n : ℕ) (gap : List ℕ) (items : Typed) (acc : List ℕ)
      → All (λ c. is_space c ≡ true) gap
      → IsTyped items
      → length items < n
      → length acc + length items ≤ 64
      → parse_bytes kstrtou8 n (gap ++ typed items) acc ≡ some (acc ++ bytes_of items)
  unfolding typed bytes_of skip_space
  parse_typed zero gap items acc white ok fuel small = absurd (omega (arith, fuel))
  parse_typed (suc n) gap [] acc white ok fuel small =
      round_end kstrtou8 n (gap ++ []) acc (skip_gap gap [] white) ∙ ap some (sym (append-nil acc))
  parse_typed (suc n) gap ((b, next) ∷ rest) acc white ok fuel small =
      let hi = b / 16 in
      let lo = b % 16 in
      let text = next ++ typed rest in
      let two = take_two (digit hi) lo text (omega arith) in
      round_byte kstrtou8 n (digit hi) b (gap ++ (digit hi ∷ digit lo ∷ text)) (digit lo ∷ text) acc
        (omega (arith, small))
        (skip_gap gap _ white ∙ skip_digit hi (digit lo ∷ text) (omega (arith, ok.0.0)))
        (ap (λ (r : Digits × List ℕ). kstrtou8 r.0) two
          ∙ hex hi lo (omega (arith, ok.0.0)) (omega arith)
          ∙ ap some (omega arith))
      ∙ ap (λ (r : Digits × List ℕ). parse_bytes kstrtou8 n r.1 (acc ++ b ∷ [])) two
      ∙ parse_typed n next rest (acc ++ b ∷ []) ok.0.1 ok.1 (omega (arith, fuel))
          (omega (arith, small, length-append acc (b ∷ [])))
      ∙ ap some (append_assoc acc (b ∷ []) (bytes_of rest))

  pub parsed-typed :
      (lead : List ℕ) (items : Typed)
      → All (λ c. is_space c ≡ true) lead
      → IsTyped items
      → length items ≤ 64
      → parsed kstrtou8 (lead ++ typed items) ≡ bytes_of items
  unfolding parsed
  parsed-typed lead items white ok small =
      let text = lead ++ typed items in
      let chosen : Option (List ℕ) → List ℕ = λ r. elim r [ none ↦ [] | some bytes ↦ bytes ] in
      ap chosen (
        parse_typed (suc (length text)) lead items [] white ok
          (omega (arith, length-append lead (typed items), length-typed items))
          (omega (arith, small)))

no_init : (a : ℕ) (text : List ℕ) → a ≢ 105 → is_init (a ∷ text) ≡ false
unfolding is_init
no_init a [] h = refl
no_init a (b ∷ []) h = refl
no_init a (b ∷ c ∷ []) h = refl
no_init a (b ∷ c ∷ d ∷ text) h = ground (arith, h)

typed_not_init :
    (b : ℕ) (gap : List ℕ) (rest : Typed) → b < 256 → is_init (typed ((b, gap) ∷ rest)) ≡ false
unfolding typed
typed_not_init b gap rest h = no_init (digit (b / 16)) _ (ground (arith, h))

length-bytes_of : (items : Typed) → length (bytes_of items) ≡ length items
unfolding bytes_of
length-bytes_of [] = refl
length-bytes_of ((b, gap) ∷ rest) = ap suc (length-bytes_of rest)

suc_dark : (bs : List ℕ) (b : ℕ) → (length (b ∷ bs) == 0) ≡ false
suc_dark bs b = ground arith

store_writes :
    {D : Type 0} (spi : Spi D) (kstrtou8 : Digits → Option ℕ) (text bytes : List ℕ) (w : Dbg D)
    → w.g_spi ≡ true
    → is_init text ≡ false
    → parsed kstrtou8 text ≡ bytes
    → (length bytes == 0) ≡ false
    → (lcd_write spi bytes w).0 ≡ none
    → write_store spi kstrtou8 text w ≡ (value (length text), (lcd_write spi bytes w).1)
unfolding write_store
store_writes spi kstrtou8 text bytes w there plain e some_bytes sent =
    simp (there, plain, e, some_bytes, sent)

-- A text of one to 64 bytes, each two hexadecimal digits with any white space behind it, sends the
-- first byte as the command and the others as its data, when the transfers succeed, and returns the
-- length of the text: what is written to the file is what goes over the wires.
pub write_roundtrip :
    {D : Type 0} (spi : Spi D) (kstrtou8 : Digits → Option ℕ) (b : ℕ) (gap : List ℕ) (rest : Typed)
    (w : Dbg D)
    → ((d : D) (bytes : List ℕ) → (spi.sync d bytes).0 ≡ none)
    → ReadsHex kstrtou8
    → IsTyped ((b, gap) ∷ rest)
    → length rest < 64
    → w.g_spi ≡ true
    → let text = typed ((b, gap) ∷ rest) in
      let (ret, w') = write_store spi kstrtou8 text w in
      (ret ≡ value (length text)) × (w'.signals ≡ wire w.g_dc_gpio b (bytes_of rest) ++ w.signals)
unfolding bytes_of
write_roundtrip {D = D} spi kstrtou8 b gap rest w works hex ok small there =
    let text = typed ((b, gap) ∷ rest) in
    let e : parsed kstrtou8 text ≡ b ∷ bytes_of rest =
      parsed-typed kstrtou8 hex [] ((b, gap) ∷ rest) tt ok (omega (arith, small)) in
    let (ret, signals, _, _) = lcd_write-wire spi b (bytes_of rest) w works there in
    let stored =
      store_writes spi kstrtou8 text (b ∷ bytes_of rest) w there (typed_not_init b gap rest ok.0.0)
        e (suc_dark (bytes_of rest) b) ret in
    (
      ap (λ (r : Ret ℕ × Dbg D). r.0) stored,
      ap (λ (r : Ret ℕ × Dbg D). r.1.signals) stored ∙ signals,
    )

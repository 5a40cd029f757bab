-- ===== src/Kbd/Tables/Facts.antt =====
-- What the tables of picocalc_kbd.c guarantee to the state machine.
use picocalc_ubuntu_kernel.Prelude.{
  ℕ, ◌<◌, ◌≡◌, refl, ◌≢◌, Bool, true, false, not, ◌&&◌, ◌||◌, ltb, ◌==◌, all_below, all_below_sound,
  arith,
}
use picocalc_ubuntu_kernel.Input.{
  Keycode, Keycode-discrete, same_code, key_capslock, key_leftshift, key_rightshift, key_leftalt,
  key_leftctrl,
}
use picocalc_ubuntu_kernel.Kbd.Phys.{pk_max, pk_capslock}
use picocalc_ubuntu_kernel.Kbd.Tables.{scancode_to_phys, phys_to_base_keycode, lookup_fn_keycode}

-- A code that only an ordinary key reports.
abbrev pub IsPlain : Keycode → Type 0
IsPlain k =
    (k ≢ key_capslock)
    × (k ≢ key_leftshift)
    × (k ≢ key_rightshift)
    × (k ≢ key_leftalt)
    × (k ≢ key_leftctrl)

abbrev is_plain : Keycode → Bool
is_plain k =
    not (same_code k key_capslock)
    && not (same_code k key_leftshift)
    && not (same_code k key_rightshift)
    && not (same_code k key_leftalt)
    && not (same_code k key_leftctrl)

is_plain_sound : (k : Keycode) → is_plain k ≡ true → IsPlain k
is_plain_sound k h = ground arith

base_table : all_below pk_max (λ q. is_plain (phys_to_base_keycode q) || q == pk_capslock) ≡ true
unfolding all_below phys_to_base_keycode Keycode-discrete
base_table = refl

pub phys_to_base_keycode-IsPlain :
    (q : ℕ) → q < pk_max → q ≢ pk_capslock → IsPlain (phys_to_base_keycode q)
phys_to_base_keycode-IsPlain q h n = is_plain_sound (phys_to_base_keycode q) (
    ground (
      arith,
      all_below_sound pk_max (λ r. is_plain (phys_to_base_keycode r) || r == pk_capslock) q
          base_table,
    ))

fn_table : (b : Bool) → all_below pk_max (λ q. is_plain (lookup_fn_keycode q b)) ≡ true
unfolding all_below lookup_fn_keycode Keycode-discrete
fn_table true = refl
fn_table false = refl

pub lookup_fn_keycode-IsPlain : (q : ℕ) (b : Bool) → q < pk_max → IsPlain (lookup_fn_keycode q b)
lookup_fn_keycode-IsPlain q b h =
    is_plain_sound (lookup_fn_keycode q b)
      (all_below_sound pk_max (λ r. is_plain (lookup_fn_keycode r b)) q (fn_table b) h)

scancode_table : all_below 256 (λ s. ltb (scancode_to_phys s) pk_max) ≡ true
unfolding all_below scancode_to_phys
scancode_table = refl

-- Every scancode byte names a key inside the tables that the state machine indexes.
pub scancode_to_phys-lt : (s : ℕ) → s < 256 → scancode_to_phys s < pk_max
scancode_to_phys-lt s h =
    ground (arith, all_below_sound 256 (λ t. ltb (scancode_to_phys t) pk_max) s scancode_table)

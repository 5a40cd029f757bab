-- ===== src/KbdOld/Examples.antt =====
-- The v1.2 driver on a bus that answers 0 and a clock that stands at 5.
use picocalc_ubuntu_kernel.KbdOld.Report.Status.{status_by_event, page_key_sticks}
use picocalc_ubuntu_kernel.Prelude.Int.{pos, ℤ}
use picocalc_ubuntu_kernel.KbdOld.Report.{key_report_event}
use picocalc_ubuntu_kernel.KbdOld.Probe.Bind.{Frees, timer_behind_probe}
use picocalc_ubuntu_kernel.Input.{is_down, key_esc, key_pageup, key_pause}
use picocalc_ubuntu_kernel.Prelude.{true, false, none, some, ◌≡◌, refl, [], ◌∷◌, ◌≢◌, arith}
use picocalc_ubuntu_kernel.Platform.{Platform, value, Ret}
use picocalc_ubuntu_kernel.KbdOld.Context.{World}
use picocalc_ubuntu_kernel.KbdOld.Probe.{
  Driver, Answers, no_move, picocalc_kbd_probe, picocalc_kbd_remove, kbd_timer_function,
}
use picocalc_ubuntu_kernel.KbdOld.Report.Pairing.{press, release, fn_release_paired, report_events}
use picocalc_ubuntu_kernel.KbdOld.Sysfs as Old
use picocalc_ubuntu_kernel.Kbd.Sysfs as New
use picocalc_ubuntu_kernel.Kbd.Context as NewBus
use picocalc_ubuntu_kernel.Kbd.Probe as NewProbe
use picocalc_ubuntu_kernel.KbdOld.Sysfs.Same.{SameAnswer, files_agree}

abbrev still : Platform Unit
still = record {
  read_byte = λ d r. (value 0, d);
  read_word = λ d r. (value 0, d);
  write_byte = λ d r v. (value 0, d);
  ktime = λ d. (5, d);
}

abbrev fresh_world : World Unit
fresh_world = record {
  ctx = record {
    key_fifo_count = 0;
    key_fifo_data = λ i. record { state = 0; scancode = 0 };
    last_keypress_at = 0;
    mouse_mode = false;
    mouse_move_dir = no_move;
    phy_shr = false;
    phy_shl = false;
    virtual_ins = false;
  };
  keycode2_pressed = λ i. false;
  mouse_move_step = 0;
  dev = tt;
  out = [];
}

abbrev pointing : World Unit
pointing = record fresh_world {
  ctx = record (fresh_world.ctx) { phy_shr = true; mouse_mode = true };
}

abbrev with_right_shift : World Unit
with_right_shift = record fresh_world { ctx = record (fresh_world.ctx) { phy_shr = true } }

-- Escape pressed under the right shift, the shift released, and the release sent with the other code.
fn_release_paired_example :
    let w' = key_report_event still (release 0xb1) (
      report_events still
        (release 0xa3 ∷ [])
        (key_report_event still (press 0xd0) with_right_shift)) in
    (is_down key_esc w'.out ≡ false)
    × (is_down key_pause w'.out ≡ false)
    × (w'.keycode2_pressed 5 ≡ false)
unfolding is_down
fn_release_paired_example =
    fn_release_paired still 5 0xd0 0xb1 (release 0xa3 ∷ []) with_right_shift (omega arith) refl refl
      ((omega arith, refl), tt) refl refl refl

status_by_event_example :
    let w' = key_report_event still (press 0xd1) with_right_shift in
    (w'.ctx.phy_shr ≡ true)
    × (w'.ctx.phy_shl ≡ false)
    × (w'.ctx.mouse_mode ≡ true)
    × (false ≡ false → w'.ctx.mouse_move_dir ≡ no_move)
status_by_event_example = status_by_event still (press 0xd1) with_right_shift

page_key_sticks_example :
    (is_down key_pageup
        (report_events still (press 0xd6 ∷ release 0xa3 ∷ release 0xb5 ∷ []) pointing).out
      ≡ true)
    × (is_down key_pageup
          (report_events still (press 0xd6 ∷ release 0xd6 ∷ release 0xa3 ∷ []) pointing).out
        ≡ false)
page_key_sticks_example = page_key_sticks still pointing true true refl refl

abbrev freed : Driver Unit → Driver Unit
freed s = record s { allocated = false }

abbrev freed-Frees : Frees freed
freed-Frees = record { gone = λ s. refl; timer = λ s. refl }

abbrev refused : Answers
refused = record {
  ctx_allocated = true;
  keycode_map_copied = true;
  input_allocated = true;
  input_register_device = 16;
  kobj_allocated = true;
  kobject_init_and_add = 0;
  sysfs_create_group = 0;
}

abbrev unbound : Driver Unit
unbound = record {
  world = fresh_world;
  g_ctx = false;
  allocated = false;
  timer_armed = false;
  kobj = false;
}

timer_behind_probe_example :
    let (rc, s') = picocalc_kbd_probe still refused unbound in
    let removed = picocalc_kbd_remove s' in
    (rc ≡ 0
      → (true ≡ true)
        × (s'.timer_armed ≡ true)
        × (kbd_timer_function s' ≡ some s')
        × (removed.timer_armed ≡ false)
        × (removed.g_ctx ≡ false))
    × (true ≡ false → (rc ≡ 12) × ((freed s').timer_armed ≡ false))
    × (rc ≢ 0
        → true ≡ true
        → ((freed s').timer_armed ≡ true) × (kbd_timer_function (freed s') ≡ none))
timer_behind_probe_example = timer_behind_probe still freed refused unbound refl freed-Frees

-- A text is the number that it holds.
abbrev reading : ℤ → Ret ℤ
reading v = value v

abbrev newer_world : NewBus.World Unit
newer_world = record { ctx = NewProbe.new_ctx 0; dev = tt; out = [] }

files_agree_example :
    SameAnswer
      (Old.keyboard_backlight_store reading still (pos 200) 4 (some fresh_world))
      (New.keyboard_backlight_store reading still (pos 200) 4 (some newer_world))
    × SameAnswer
        (Old.screen_backlight_store reading still (pos 200) 4 (some fresh_world))
        (New.screen_backlight_store reading still (pos 200) 4 (some newer_world))
    × SameAnswer
        (Old.battery_percent_show still (some fresh_world))
        (New.battery_percent_show still (some newer_world))
files_agree_example =
    files_agree reading still (pos 200) 4 (some fresh_world) (some newer_world) refl

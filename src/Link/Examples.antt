-- ===== src/Link/Examples.antt =====
-- The driver and the firmware on concrete inputs.
use picocalc_ubuntu_kernel.Fw.Loop.{LoopRound, Watch}
use picocalc_ubuntu_kernel.Fw.Loop.Watchdog.{Polled}
use picocalc_ubuntu_kernel.Fw.Scan.Distinct.{Distinct, keys_once}
use picocalc_ubuntu_kernel.Link.Levels.{level_roundtrip, screen_keys_step}
use picocalc_ubuntu_kernel.Kbd.Backlight.{reg_id_bkl, reg_id_bk2}
use picocalc_ubuntu_kernel.Kbd.Dispatch.Release.{AllUp}
use picocalc_ubuntu_kernel.Kbd.Tables.{
  phys_to_base_keycode, scancode_to_phys, first_match, screen_bkl_up, screen_bkl_down,
}
use picocalc_ubuntu_kernel.Kbd.Dispatch.{run_dispatch, fn_action_run}
use picocalc_ubuntu_kernel.Fw.Bus.{receive_event, rcv_loop, command, fifo_register, request_event}
use picocalc_ubuntu_kernel.Link.Battery.{battery_roundtrip}
use picocalc_ubuntu_kernel.Link.PowerOff.{off_acts, power_off_obeyed}
use picocalc_ubuntu_kernel.Fw.Power.Lights.{leds_left_to_driver}
use picocalc_ubuntu_kernel.Fw.Keys.{pressed, hold, released}
use picocalc_ubuntu_kernel.Fw.Events.{Fed}
use picocalc_ubuntu_kernel.Prelude.Int.{pos}
use picocalc_ubuntu_kernel.Kbd.Probe.Lifecycle.{zeroed-Inv}
use picocalc_ubuntu_kernel.Kbd.Probe.{new_ctx}
use picocalc_ubuntu_kernel.Link.System.{
  Reaches, Sound, always_Sound, later, scanned, here, no_key_left_down, scan, work,
}
use picocalc_ubuntu_kernel.Link.Round.{Round, worker_follows}
use picocalc_ubuntu_kernel.Link.{controller, [], value}
use picocalc_ubuntu_kernel.Kbd.Worker.{
  input_workqueue_handler, input_fw_read_fifo, read_items, store_item, dispatch_items,
  dispatch_item,
}
use picocalc_ubuntu_kernel.Kbd.Sysfs.{battery_percent_show, reg_id_off}
use picocalc_ubuntu_kernel.Kbd.Context.{
  World, kbd_read_reg, kbd_write_i2c_u8, kbd_read_i2c_2u8, stamp,
}
use picocalc_ubuntu_kernel.Input.{is_down, key_a, Keycode-discrete}
use picocalc_ubuntu_kernel.Fw.Scan.{Look, keyboard_process}
use picocalc_ubuntu_kernel.Fw.Regs.{reg_get_value, reg_is_bit_set}
use picocalc_ubuntu_kernel.Fw.Power.{Readings, check_pmu_int, led_driver_active, sync_bat}
use picocalc_ubuntu_kernel.Fw.Fifo.Refine.{run, get, put, flush, queue_run, fifo_refines}
use picocalc_ubuntu_kernel.Fw.Fifo.Queue.{waiting}
use picocalc_ubuntu_kernel.Fw.Fifo.{Fifo, no_item, fifo_dequeue}
use picocalc_ubuntu_kernel.Prelude.{
  refl, ℕ, false, if◌then◌else◌, none, some, tabulate, ◌*◌, ◌≡◌, suc, true, ◌==◌, ◌∷◌, arith, inl,
  ◌++◌, inr, ◌+◌,
}
use picocalc_ubuntu_kernel.Fw.State.{Firmware, ListItem, Mods, on_kbd}

abbrev ticking : ℕ → ℕ × ℕ
ticking k = (5000000 * k, suc k)

-- Three events that wait around the end of the ring: A pressed, held and released.
abbrev ring : Fifo
ring = record {
  fifo = λ i. record {
    key = 65;
    key_state = if i == 29 then pressed else if i == 30 then hold else released;
  };
  count = 3;
  read_idx = 29;
  write_idx = 1;
}

abbrev no_list : ListItem
no_list = record { p_entry = none; hold_start_time = 0; last_repeat_time = 0; item_state = 0 }

abbrev no_mods : Mods
no_mods = record {
  sym_held = false;
  alt_held = false;
  shl_held = false;
  shr_held = false;
  ctrl_held = false;
}

abbrev board : Firmware
board = record {
  regs = λ r. if r == 5 then 32 else if r == 15 then 128 else 0;
  fifo = ring;
  kbd = record {
    list = λ i. no_list;
    last_process_time = 0;
    mods = no_mods;
    capslock_changed = false;
    capslock = false;
    numlock_changed = false;
    numlock = false;
  };
  keycb_start = true;
  write_buffer = 0 ∷ 0 ∷ [];
  pmu_online = 1;
  led_update_pending = false;
  io_matrix = λ c. 255;
  js_bits = 255;
  low_bat_count = 0;
  run_time = 0;
  pmu_flag = true;
  head_phone_status = false;
  acts = [];
}

abbrev machine : World (Firmware × ℕ)
machine = record { ctx = new_ctx 0; dev = (board, 1); out = [] }

ring-Fed : Fed ring
unfolding waiting tabulate
ring-Fed = record {
  valid = ground arith;
  events = (
    record { byte = omega arith; known = inl refl },
    (
      record { byte = omega arith; known = inr (inl refl) },
      (record { byte = omega arith; known = inr (inr refl) }, tt),
    ),
  );
}

machine-Sound : Sound ticking (0, 0) machine
machine-Sound = record {
  driver = zeroed-Inv (controller ticking (0, 0)) 0 (board, 1);
  firmware = ring-Fed;
}

-- No key is down.
abbrev looked : Look
looked = record {
  is_pressed = λ e. false;
  clock = λ e. record { first = 0; second = 0; third = 0 };
}

worker_follows_example :
    Round ticking
      (0, 0)
      (waiting ring)
      machine
      (input_workqueue_handler (controller ticking (0, 0)) machine)
worker_follows_example = worker_follows ticking (0, 0) machine ring-Fed

abbrev worked : World (Firmware × ℕ)
worked =
    input_workqueue_handler (controller ticking (0, 0))
      (scanned ticking (0, 0) 100 101 looked machine)

abbrev path : Reaches ticking (0, 0) machine worked
path =
    later (later (here machine) (scan 100 101 looked machine))
      (work (scanned ticking (0, 0) 100 101 looked machine))

always_Sound_example : Sound ticking (0, 0) worked
always_Sound_example = always_Sound ticking (0, 0) path machine-Sound

level_roundtrip_example :
    let p = controller ticking (0, 0) in
    ((kbd_read_reg p reg_id_bkl (kbd_write_i2c_u8 p reg_id_bkl 140 machine).1).0 ≡ value 128)
    × ((kbd_read_reg p reg_id_bk2 (kbd_write_i2c_u8 p reg_id_bk2 140 machine).1).0 ≡ value 128)
level_roundtrip_example = level_roundtrip ticking (0, 0) 140 machine (ground arith)

board_level : reg_get_value reg_id_bkl board ≡ 16 * (1 + 1)
unfolding reg_get_value
board_level = refl

screen_keys_step_example :
    let p = controller ticking (0, 0) in
    (reg_get_value reg_id_bkl (fn_action_run p screen_bkl_up machine).dev.0 ≡ 48)
    × (reg_get_value reg_id_bkl (fn_action_run p screen_bkl_down machine).dev.0 ≡ 16)
screen_keys_step_example = screen_keys_step ticking (0, 0) 1 machine (ground arith) board_level

abbrev answered : Readings
answered = record {
  percent = pos 80;
  charging = true;
  low_percent = pos 80;
  drop_warning_level1 = false;
  vbus_remove = some (pos 80);
  bat_insert = none;
  bat_remove = none;
  pekey_short_press = true;
  pekey_long_press = false;
  pekey_negative = false;
  charger_done = none;
  charger_start = some (pos 80, true);
}

power_off_obeyed_example :
    (check_pmu_int 30000 30001 answered
      (kbd_write_i2c_u8 (controller ticking (0, 0)) reg_id_off 9 machine).1.dev.0).acts
    ≡ off_acts 9 ++ []
power_off_obeyed_example = power_off_obeyed ticking (0, 0) 30000 30001 answered 9 machine

battery_roundtrip_example :
    (battery_percent_show
      (controller ticking (0, 0))
      (some (record machine { dev = (sync_bat (pos 80) true board, 1) }))).0
    ≡ value 208
battery_roundtrip_example = battery_roundtrip ticking (0, 0) 80 true machine (ground arith)

driver_holds_leds : led_driver_active board ≡ true
unfolding led_driver_active reg_is_bit_set
driver_holds_leds = refl

leds_left_to_driver_example : (check_pmu_int 30000 30001 answered board).acts ≡ []
leds_left_to_driver_example =
    leds_left_to_driver 30000 30001 answered board driver_holds_leds (ground arith) refl refl

fifo_refines_example :
    run (get ∷ put no_item ∷ flush ∷ get ∷ []) ring
    ≡ queue_run (get ∷ put no_item ∷ flush ∷ get ∷ []) (waiting ring)
fifo_refines_example = fifo_refines (get ∷ put no_item ∷ flush ∷ get ∷ []) ring ring-Fed.valid

handled_up : AllUp (input_workqueue_handler (controller ticking (0, 0)) machine)
unfolding input_workqueue_handler input_fw_read_fifo read_items store_item dispatch_items
    dispatch_item kbd_read_i2c_2u8 controller receive_event rcv_loop command fifo_register
    fifo_dequeue request_event run_dispatch stamp new_ctx Keycode-discrete phys_to_base_keycode
    scancode_to_phys first_match
handled_up = record { slots = λ q. ground arith; shl = refl; shr = refl; alt = refl; ctrl = refl }

no_key_left_down_example :
    is_down key_a (input_workqueue_handler (controller ticking (0, 0)) machine).out ≡ false
no_key_left_down_example =
    no_key_left_down ticking (0, 0) key_a (later (here machine) (work machine)) machine-Sound
      handled_up (ground arith) (ground arith)

-- A look at which the key A is down, while the list has the key already.
abbrev pressing : Look
pressing = record {
  is_pressed = λ e. e == 39;
  clock = λ e. record { first = 50; second = 50; third = 50 };
}

abbrev busy : Firmware
busy =
    on_kbd
      (λ k. record k {
        list =
            λ i. if i == 2 then record no_list { p_entry = some 39; item_state = 1 } else no_list;
      })
      board

busy-Distinct : Distinct busy
busy-Distinct = record { unique = λ i j e a b h k. ground (arith, h, k) }

keys_once_example : Distinct (keyboard_process 100 101 pressing busy)
keys_once_example = keys_once 100 101 pressing busy busy-Distinct

abbrev nothing_read : Readings
nothing_read = record {
  percent = pos 50;
  charging = false;
  low_percent = pos 50;
  drop_warning_level1 = false;
  vbus_remove = none;
  bat_insert = none;
  bat_remove = none;
  pekey_short_press = true;
  pekey_long_press = false;
  pekey_negative = false;
  charger_done = none;
  charger_start = none;
}

abbrev a_round : LoopRound
a_round = record {
  power_now = 30000;
  power_again = 30001;
  readings = nothing_read;
  scan_now = 30002;
  scan_finished = 30003;
  look = looked;
  uptime = 30004;
  receive_now = 30004;
  request_now = 30004;
  reset_receive = 30010;
  reset_request = 30010;
  plugged = false;
}

abbrev watch : Watch
watch = record { receive_event_tick = 20000; request_event_tick = 20000; resets = 0 }

abbrev read_request : Polled
read_request = record {
  received_at = 29000;
  first_byte = 9;
  bytes = [];
  requested_at = 29001;
  round = a_round;
}

abbrev late_round : LoopRound
late_round = record a_round { receive_now = 31501; request_now = 31501; uptime = 31501 }

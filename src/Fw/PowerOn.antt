-- ===== src/Fw/PowerOn.antt =====
-- The static variables of the firmware's files as C initialises them: the state at power-on, and behind
-- a reset of the processor.
use picocalc_ubuntu_kernel.Prelude.{false, none, []}
use picocalc_ubuntu_kernel.Fw.State.{Firmware, ListItem, Mods}
use picocalc_ubuntu_kernel.Fw.Fifo.{Fifo, no_item}

abbrev pub idle_item : ListItem
idle_item = record { p_entry = none; hold_start_time = 0; last_repeat_time = 0; item_state = 0 }

abbrev pub no_mods : Mods
no_mods = record {
  sym_held = false;
  alt_held = false;
  shl_held = false;
  shr_held = false;
  ctrl_held = false;
}

abbrev pub fifo_self : Fifo
fifo_self = record { fifo = λ i. no_item; count = 0; read_idx = 0; write_idx = 0 }

abbrev pub power_on : Firmware
power_on = record {
  regs = λ r. 0;
  fifo = fifo_self;
  kbd = record {
    list = λ i. idle_item;
    last_process_time = 0;
    mods = no_mods;
    capslock_changed = false;
    capslock = false;
    numlock_changed = false;
    numlock = false;
  };
  keycb_start = false;
  write_buffer = [];
  pmu_online = 0;
  led_update_pending = false;
  io_matrix = λ c. 0;
  js_bits = 0xff;
  low_bat_count = 0;
  run_time = 0;
  pmu_flag = false;
  head_phone_status = false;
  acts = [];
}

-- ===== src/Link/System.antt =====
-- The whole keyboard: the scans of the firmware and the work of the driver, in any order.
use picocalc_ubuntu_kernel.Kbd.Probe.Lifecycle.{zeroed-Inv}
use picocalc_ubuntu_kernel.Kbd.Probe.{new_ctx}
use picocalc_ubuntu_kernel.Fw.Setup.{setup, setup_lem}
use picocalc_ubuntu_kernel.Fw.PowerOn.{power_on}
use picocalc_ubuntu_kernel.Prelude.Int.{ℤ}
use picocalc_ubuntu_kernel.Fw.Events.Scans.{keyboard_process-Fed}
use picocalc_ubuntu_kernel.Fw.Power.Serves.{check_pmu_int-Fed, led_round-Fed, check_hp_det-Fed}
use picocalc_ubuntu_kernel.Fw.Power.{Readings, check_pmu_int, led_round, check_hp_det}
use picocalc_ubuntu_kernel.Kbd.Dispatch.{run_events}
use picocalc_ubuntu_kernel.Kbd.Dispatch.Release.{IsKeyEvent, run_events-Inv, AllUp, AllUp-clear}
use picocalc_ubuntu_kernel.Link.Round.{Round, worker_follows, key_events, fifo_cleared}
use picocalc_ubuntu_kernel.Fw.Fifo.Queue.{waiting}
use picocalc_ubuntu_kernel.Input.{is_down, Keycode, input_sync, reserved, key_capslock}
use picocalc_ubuntu_kernel.Fw.Fifo.{KeyItem}
use picocalc_ubuntu_kernel.Kbd.Backlight.{bl_flash_restore}
use picocalc_ubuntu_kernel.Kbd.Mouse.{mouse_emit_rel}
use picocalc_ubuntu_kernel.Fw.Serves.{request_event-Fed, receive_event-Fed}
use picocalc_ubuntu_kernel.Kbd.Worker.{input_workqueue_handler}
use picocalc_ubuntu_kernel.Kbd.Dispatch.Quiet.{Quiet, mouse_emit_rel-Quiet, bl_flash_restore-Quiet}
use picocalc_ubuntu_kernel.Kbd.Dispatch.Invariant.{Quiet-Inv}
use picocalc_ubuntu_kernel.Kbd.Dispatch.Device.{
  Closed, run_events-At, mouse_emit_rel-At, bl_flash_restore-At,
}
use picocalc_ubuntu_kernel.Fw.State.{Firmware}
use picocalc_ubuntu_kernel.Fw.Events.{FedBy, IsEvent}
use picocalc_ubuntu_kernel.Fw.Bus.{request_event, receive_event}
use picocalc_ubuntu_kernel.Link.{controller, []}
use picocalc_ubuntu_kernel.Kbd.Dispatch.Invariant.{Inv}
use picocalc_ubuntu_kernel.Kbd.Context.{World, emit}
use picocalc_ubuntu_kernel.Fw.Scan.{Look, keyboard_process}
use picocalc_ubuntu_kernel.Prelude.{
  ℕ, List, ◌∷◌, All, ◌≡◌, length, ap, subst, sym, arith, ◌≢◌, false, Bool,
}

module _ {K : Type 0} (tick : K → ℕ × K) (stack : ℕ × ℕ) where
  abbrev Machine : Type 0
  Machine = World (Firmware × K)

  abbrev pub scanned : ℕ → ℕ → Look → Machine → Machine
  scanned now finished look w = record w {
    dev = (keyboard_process now finished look w.dev.0, w.dev.1);
  }

  -- The firmware works on its own.
  abbrev pub on_firmware : (Firmware → Firmware) → Machine → Machine
  on_firmware f w = record w { dev = (f w.dev.0, w.dev.1) }

  abbrev pub requested : List ℕ → Machine → Machine
  requested bytes w = record w {
    dev = ((request_event (receive_event stack bytes w.dev.0)).1, w.dev.1);
  }

  -- A scan by the firmware, and its other rounds; a message from another client of the bus with its
  -- answer; a restart of the board, which powers on and sets itself up while the driver goes on, as behind
  -- a message to REG_ID_RST or a loss of power; and each work of the driver, run from its start to its end.
  pub data Step : Machine → Machine → Type 0 where
    scan : (now finished : ℕ) (look : Look) (w : Machine) → Step w (scanned now finished look w)
    message : (bytes : List ℕ) (w : Machine) → Step w (requested bytes w)
    power :
        (now again : ℕ) (r : Readings) (w : Machine)
        → Step w (on_firmware (check_pmu_int now again r) w)
    lights : (w : Machine) → Step w (on_firmware led_round w)
    headphone : (plugged : Bool) (w : Machine) → Step w (on_firmware (check_hp_det plugged) w)
    restart :
        (result charging : Bool) (pcnt low_pcnt : ℤ) (w : Machine)
        → Step w (on_firmware (λ s. setup result pcnt charging low_pcnt power_on) w)
    work : (w : Machine) → Step w (input_workqueue_handler (controller tick stack) w)
    mouse_tick : (w : Machine) → Step w (mouse_emit_rel (controller tick stack) w)
    flash_end : (w : Machine) → Step w (bl_flash_restore (controller tick stack) w)

  pub data Reaches : Machine → Machine → Type 0 where
    here : (w : Machine) → Reaches w w
    later : {u v w : Machine} → Reaches u v → Step v w → Reaches u w

  pub record Sound (w : Machine) : Type 0 where
    pub driver : Inv w
    pub firmware : FedBy w.dev.0

  kept_by_bus : Closed (controller tick stack) (λ d. FedBy d.0)
  unfolding controller
  kept_by_bus = record {
    bytes = λ d r h. request_event-Fed _ (receive_event-Fed stack (r ∷ []) d.0 h);
    words = λ d r h. request_event-Fed _ (receive_event-Fed stack (r ∷ []) d.0 h);
    writes = λ d r v h. receive_event-Fed stack (r ∷ v ∷ []) d.0 h;
    clock = λ d h. h;
  }

  read_keeps :
      (q : List KeyItem) (w w' read : Machine)
      → read.ctx
        ≡ record (w.ctx) { key_fifo_count = length q; key_fifo_data = read.ctx.key_fifo_data }
      → read.out ≡ w.out
      → Quiet w read
  read_keeps q w w' read same silent = record {
    slots = ap (λ c. c.key_state) same;
    shl = ap (λ c. c.phy_shl) same;
    shr = ap (λ c. c.phy_shr) same;
    alt = ap (λ c. c.phy_alt) same;
    ctrl = ap (λ c. c.phy_ctrl) same;
    reported = ap (λ c. c.rshift_reported) same;
    held = λ k. ap (is_down k) silent;
  }

  key_events-known : (q : List KeyItem) → All IsEvent q → All (λ e. IsKeyEvent e.1) (key_events q)
  key_events-known [] h = tt
  key_events-known (x ∷ q) h = (h.0.known, key_events-known q h.1)

  synced_keeps : (w : Machine) → Quiet w (emit input_sync (fifo_cleared tick stack w))
  unfolding is_down
  synced_keeps w = ground arith

  dev_keeps : (w : Machine) (d : Firmware × K) → Quiet w (record w { dev = d })
  dev_keeps w d = ground arith

  work-Sound : (w : Machine) → Sound w → Sound (input_workqueue_handler (controller tick stack) w)
  work-Sound w s =
      let q = waiting w.dev.0.fifo in
      let r : Round tick stack q w (input_workqueue_handler (controller tick stack) w) =
        worker_follows tick stack w s.firmware in
      let before = Quiet-Inv (read_keeps q w w r.read r.same r.silent) s.driver in
      let es = key_events q in
      let after =
        run_events-Inv (controller tick stack) es r.read (key_events-known q s.firmware.events)
          before in
      subst Sound (sym r.handled) (record {
        driver = Quiet-Inv (synced_keeps (run_events (controller tick stack) es r.read)) after;
        firmware =
            run_events-At (controller tick stack) (λ d. FedBy d.0) kept_by_bus es r.read r.fed;
      })

  Step-Sound : {w w' : Machine} → Step w w' → Sound w → Sound w'
  Step-Sound (scan now finished look w) s = record {
    driver = Quiet-Inv (dev_keeps w _) s.driver;
    firmware = keyboard_process-Fed now finished look w.dev.0 s.firmware;
  }
  Step-Sound (message bytes w) s = record {
    driver = Quiet-Inv (dev_keeps w _) s.driver;
    firmware = request_event-Fed _ (receive_event-Fed stack bytes w.dev.0 s.firmware);
  }
  Step-Sound (power now again r w) s = record {
    driver = Quiet-Inv (dev_keeps w _) s.driver;
    firmware = check_pmu_int-Fed now again r w.dev.0 s.firmware;
  }
  Step-Sound (lights w) s = record {
    driver = Quiet-Inv (dev_keeps w _) s.driver;
    firmware = led_round-Fed w.dev.0 s.firmware;
  }
  Step-Sound (headphone plugged w) s = record {
    driver = Quiet-Inv (dev_keeps w _) s.driver;
    firmware = check_hp_det-Fed plugged w.dev.0 s.firmware;
  }
  Step-Sound (restart result charging pcnt low_pcnt w) s = record {
    driver = Quiet-Inv (dev_keeps w _) s.driver;
    firmware = (setup_lem result charging pcnt low_pcnt).0;
  }
  Step-Sound (work w) s = work-Sound w s
  Step-Sound (mouse_tick w) s = record {
    driver = Quiet-Inv (mouse_emit_rel-Quiet (controller tick stack) w) s.driver;
    firmware = mouse_emit_rel-At (controller tick stack) (λ d. FedBy d.0) kept_by_bus w s.firmware;
  }
  Step-Sound (flash_end w) s = record {
    driver = Quiet-Inv (bl_flash_restore-Quiet (controller tick stack) w) s.driver;
    firmware =
        bl_flash_restore-At (controller tick stack) (λ d. FedBy d.0) kept_by_bus w s.firmware;
  }

  -- However the rounds of the firmware, the messages of other clients, the restarts of the board and the
  -- works of the driver follow each other: the
  -- driver's account of the keys that Linux holds stays true, and the firmware's ring stays well formed
  -- with key bytes in the states pressed, hold and released only.
  pub always_Sound : {w w' : Machine} → Reaches w w' → Sound w → Sound w'
  always_Sound (here w) s = s
  always_Sound (later r step) s = Step-Sound step (always_Sound r s)

  -- In every machine that such a sequence reaches, when the driver has seen every key go up, Linux holds
  -- no key down but perhaps caps lock.
  pub no_key_left_down :
      {w w' : Machine} (k : Keycode)
      → Reaches w w'
      → Sound w
      → AllUp w'
      → k ≢ reserved
      → k ≢ key_capslock
      → is_down k w'.out ≡ false
  no_key_left_down {w} {w'} k r s up code caps =
      AllUp-clear w' k (always_Sound r s).driver up code caps

  -- The kernel's driver at the start, over a board that has just set itself up.
  abbrev pub booted : Bool → ℤ → Bool → ℤ → ℕ → K → Machine
  booted result pcnt charging low_pcnt now k = record {
    ctx = new_ctx now;
    dev = (setup result pcnt charging low_pcnt power_on, k);
    out = [];
  }

  pub booted-Sound :
      (result charging : Bool) (pcnt low_pcnt : ℤ) (now : ℕ) (k : K)
      → Sound (booted result pcnt charging low_pcnt now k)
  booted-Sound result charging pcnt low_pcnt now k =
      let s = setup result pcnt charging low_pcnt power_on in
      record {
        driver = zeroed-Inv (controller tick stack) now (s, k);
        firmware = (setup_lem result charging pcnt low_pcnt).0;
      }

-- ===== src/KbdOld/Probe.antt =====
-- Probe, shutdown and removal of picocalc_kbd.c for the v1.2 firmware. What the kernel's allocators and
-- registrations answer is an argument; a number is 0 or the number of an error.
pub mod Bind
use picocalc_ubuntu_kernel.Prelude.{
  ℕ, Bool, true, false, Option, if◌then◌else◌, not, ◌&&◌, ◌==◌, some, none,
}
use picocalc_ubuntu_kernel.Platform.{Platform, enomem}
use picocalc_ubuntu_kernel.KbdOld.Context.{KbdCtx, MoveDir, World}

abbrev pub no_move : MoveDir
no_move = record { left = false; right = false; up = false; down = false }

-- The zeroed context, with what `input_probe` writes.
unfoldable pub new_ctx : ℕ → KbdCtx
new_ctx now = record {
  key_fifo_count = 0;
  key_fifo_data = λ i. record { state = 0; scancode = 0 };
  last_keypress_at = now;
  mouse_mode = false;
  mouse_move_dir = no_move;
  phy_shr = false;
  phy_shl = false;
  virtual_ins = false;
}

pub record Answers : Type 0 where
  pub ctx_allocated : Bool
  pub keycode_map_copied : Bool
  pub input_allocated : Bool
  pub input_register_device : ℕ
  pub kobj_allocated : Bool
  pub kobject_init_and_add : ℕ
  pub sysfs_create_group : ℕ

-- The module's static state: the context and the flags that its keys use, whether `g_ctx` points to it,
-- whether the memory it points to is still the driver's, the timer, and `picocalc_kobj`.
pub record Driver (D : Type 0) : Type 0 where
  pub world : World D
  pub g_ctx : Bool
  pub allocated : Bool
  pub timer_armed : Bool
  pub kobj : Bool

module _ {D : Type 0} where
  -- The timer schedules the work of `g_ctx` and arms itself again; none is a fault, the use of a NULL
  -- pointer or of freed memory.
  unfoldable pub kbd_timer_function : Driver D → Option (Driver D)
  kbd_timer_function s =
      if s.g_ctx && s.allocated then some (record s { timer_armed = true }) else none

  unfoldable pub input_shutdown : Driver D → Driver D
  input_shutdown s = record s { timer_armed = false; g_ctx = false }

  unfoldable pub sysfs_shutdown : Driver D → Driver D
  sysfs_shutdown s = record s { kobj = false }

  unfoldable pub picocalc_kbd_shutdown : Driver D → Driver D
  unfolding input_shutdown sysfs_shutdown
  picocalc_kbd_shutdown s = input_shutdown (sysfs_shutdown s)

  unfoldable pub picocalc_kbd_remove : Driver D → Driver D
  unfolding picocalc_kbd_shutdown
  picocalc_kbd_remove s = picocalc_kbd_shutdown s

  unfoldable pub sysfs_probe : Answers → Driver D → ℕ × Driver D
  sysfs_probe a s =
      let made : Driver D = record s { kobj = true } in
      if not a.kobj_allocated
      then (enomem, record s { kobj = false })
      else if not (a.kobject_init_and_add == 0)
      then (a.kobject_init_and_add, made)
      else if not (a.sysfs_create_group == 0)
      then (enomem, made)
      else (0, made)

module _ {D : Type 0} (p : Platform D) where
  -- The context in new memory; the static flags keep what they held.
  unfoldable pub fresh : Driver D → Driver D
  unfolding new_ctx
  fresh s =
      let (now, d) = p.ktime s.world.dev in
      record s { world = record (s.world) { ctx = new_ctx now; dev = d } }

  unfoldable pub input_probe : Answers → Driver D → ℕ × Driver D
  unfolding fresh
  input_probe a s =
      let held : Driver D = record s { g_ctx = true; allocated = true } in
      let armed : Driver D = record (fresh held) { timer_armed = true } in
      if not a.ctx_allocated
      then (enomem, record s { g_ctx = false })
      else if not a.keycode_map_copied
      then (enomem, held)
      else if not a.input_allocated
      then (enomem, fresh held)
      else (a.input_register_device, armed)

  unfoldable pub picocalc_kbd_probe : Answers → Driver D → ℕ × Driver D
  unfolding input_probe sysfs_probe
  picocalc_kbd_probe a s =
      let (rc, s') = input_probe a s in if rc == 0 then sysfs_probe a s' else (rc, s')

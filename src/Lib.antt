-- ===== src/Lib.antt =====
-- Verification of the PicoCalc drivers and of the keyboard's firmware: the keyboard driver, the
-- firmware that it talks to, both together, the microcontroller's log, the keyboard drivers of the kernel
-- tree and for the v1.2 firmware, the sound by software and by hardware PWM, and the panel's driver and
-- debug module.
--
-- The parts and how they interact. The firmware of the keyboard's controller scans the keys, follows each
-- key that is down through the states pressed, hold and released, and fills a FIFO of (state, scancode)
-- pairs; it also keeps the registers, sets the backlights and watches the power chip.
-- A timer schedules a work that reads the FIFO over SMBus, turns each scancode into a physical key and
-- feeds it to a state machine, which reports keys, buttons and modifiers to Linux' input core, changes
-- the backlights, and starts and stops a delayed work that moves the mouse. sysfs files set the
-- parameters of the mouse and write the controller's registers. The microcontroller beside the
-- processor shares two structures with the kernel: a ring of log bytes, which it writes and the
-- kernel reads, and two PWM duties, which the kernel writes and it turns into pulses.
--
-- Files and code:
--   Prelude, Prelude/*   numbers, lists and 32-bit integers that the parts share.
--   Input                the codes and the calls of the input core, and what a log of calls holds down.
--   Platform             the SMBus and the clock: parameters, as an interface over any machine state.
--   Kbd, Kbd/*           modules-drivers/picocalc_keyboard_stm_mod/picocalc_kbd.c and picocalc_kbd_code.h.
--     Phys, Tables, Keymap   enum phys_key, the scancode, base, Fn and key code tables, their lookups.
--     Context                struct kbd_ctx, the I2C helpers.
--     Dispatch, Dispatch/*   key_dispatch, a definition for each part of its body; its invariant.
--     Mouse, Backlight       mouse_emit_rel, mouse_start_move, mouse_stop_move; the backlight functions.
--     Worker, Worker/Bounds  input_fw_read_fifo and input_workqueue_handler.
--     Sysfs, Probe           the stores and shows; probe, removal, reboot notice and shutdown.
--     Dispatch/Device        what every transfer keeps of the machine, every event keeps.
--     Worker/Order           the worker's dispatch as a run of events.
--   Fw, Fw/*             modules-drivers/picocalc_keyboard_stm_mod/picocalc_keyboard_stm.
--     Fifo, Fifo/*           fifo.ino, and the bounded queue that it refines.
--     State, PowerOn, Setup  the variables of all files; the state at power-on; setup.
--     Regs, Backlight, Bus   reg.ino, backlight.ino; receiveEvent and requestEvent.
--     Entries, Keys, Items   the key tables of keyboard.ino, transition_to and key_cb, next_item_state.
--     Scan, Scan/*           keyboard_process, and the list of the keys that are down.
--     Events, Serves         what scans and commands put into the ring and leave in it.
--     Loop, Loop/*           loop, ResetI2CBus, nbDelay_ms and show_bat_segs.
--     Power, Power/*         battery.ino, check_pmu_int, sync_bat and check_hp_det.
--   Link, Link/*         the driver over the firmware: a transfer is a message and its answer.
--     Receive, Round         the reading of the firmware's ring by input_fw_read_fifo; the worker.
--     System                 the steps of both programs in any order, as a relation on the whole machine.
--     Levels, Battery,       single registers through both programs.
--     PowerOff
--   Mculog, Mculog/*     src/kernel-6.1/drivers/misc/mculog.c (mculog_read) and `_write` of
--                        src/hal/project/rk3506-mcu/src/main.c; Handshake: mculog_probe with main.
--   Pckb, Pckb/*         src/kernel-6.1/drivers/input/keyboard/picocalc-keyboard.c.
--   SoftPwm, SoftPwm/*   src/kernel-6.1/sound/pwm/picocalc-softpwm.c, and timer_isr and the loop of main.c
--                        (Stereo: its STEREO variant).
--   HwPwm, HwPwm/*       modules-drivers/picocalc_snd_hw_pwm/picocalc_snd_pwm.c.
--   KbdOld, KbdOld/*     modules-drivers/picocalc_keyboard_old(for v1.2 BIOS)/picocalc_kbd.c, and its
--                        picocalc_kbd_code.h (Codes).
--     Context, Fn, Report    struct kbd_ctx; proccess_fn_key; key_report_event, a definition for each part.
--     Worker, Sysfs, Probe   the worker with the pointer's steps; the files; probe, shutdown and removal.
--     Report/Frame, Others,  what an event does to the codes of one row of fn_keycodes, and what the
--     Kept, Pairing          events of other keys do to them.
--     Report/Mode, Status    the shift status, the mouse mode and the movement bits.
--   Panel, Panel/*       src/kernel-6.1/drivers/gpu/drm/tiny/ili9488.c.
--   LcdDbg, LcdDbg/*     modules-drivers/ili9488_dbg/ili9488_dbg.c: Parse and Print for the text of the
--                        write file, Wire for the transfers, Init beside the panel's driver.
--   Examples (in each)   the theorems at concrete inputs.
--
-- State and effects. A driver's struct is a record with the source's field names. Its state is passed
-- on explicitly, beside the machine's state, which the SMBus transfers and the clock change, and the
-- log of the calls that leave the driver, the newest first. A NULL pointer is `none`, and so is a
-- fault. Results below 0 are `failure e`. Unsigned arithmetic is written modulo its width, and the
-- signed arithmetic of the mouse wraps to 32 bits.
--
-- Bounds and fuel. The loop over the FIFO runs on fuel KBD_FIFO_SIZE = 31, which is the bound of the
-- source's loop, so that it never runs out early. The parser of the debug module runs on one round more
-- than the text has characters, and each round takes a character; the loop of the handshake runs on the
-- looks that its counter leaves. All other loops go over lists or tables.
--
-- Hypotheses on the other side. Where the driver stands alone, key events carry the states 1, 2 and 3,
-- which Link/System shows of the firmware. In the firmware, `char` is unsigned as on its processor, what
-- the pins, the clock and the power chip say are arguments, calls of the board's libraries are logged,
-- and a function runs to its end before the next one starts, so that no interrupt falls into another
-- function. A message to REG_ID_RST leaves the variables of the power-on, and setup behind it is a step of its
-- own. A run of the driver's worker is one step, with no scan between two of its transfers. The
-- ring of the log has at most 2 ^ 31 bytes with both positions inside it. Each call of one side of a
-- shared structure is one step; the reads and writes of the two sides inside a call do not interleave.
--
-- Not modelled: the registration of drivers, devices and files and the mapping of memory, which only
-- call the kernel; the scheduling of works and timers; the firmware's serial prints; the kernel's own
-- files that the repository carries in a changed form (console, bitblit, SD, configfs).
pub mod Prelude
pub mod Input
pub mod Platform
pub mod Kbd
pub mod Mculog
pub mod Fw
pub mod HwPwm
pub mod KbdOld
pub mod LcdDbg
pub mod Link
pub mod Panel
pub mod Pckb
pub mod SoftPwm

-- ===== src/Fw/Bus.antt =====
-- The I2C side of picocalc_keyboard.ino: receiveEvent, which obeys a command and prepares its answer,
-- and requestEvent, which sends the answer.
use picocalc_ubuntu_kernel.Fw.PowerOn.{power_on}
use picocalc_ubuntu_kernel.Fw.Backlight.{lcd_backlight_update, kbd_backlight_update}
use picocalc_ubuntu_kernel.Fw.Regs.{reg_set_value, reg_get_value}
use picocalc_ubuntu_kernel.Fw.Regs.Ids.{
  reg_id_c64_mtx, key_numlock_bit, key_capslock_bit, reg_id_off, reg_id_ver, bios_version,
  reg_id_fif, reg_id_bkl, reg_id_bk2, reg_id_bat, reg_id_key, reg_id_c64_js, reg_id_cfg, reg_id_led,
  reg_id_rst,
}
use picocalc_ubuntu_kernel.Fw.Fifo.{fifo_count, fifo_dequeue}
use Prim.Native.Nat.{bit_and, bit_or}
use picocalc_ubuntu_kernel.Prelude.{
  ℕ, Bool, List, ◌^◌, ◌∷◌, [], false, if◌then◌else◌, length, not, tabulate, ltb, ◌==◌, ◌&&◌, ◌*◌,
  leb, true,
}
use picocalc_ubuntu_kernel.Prelude.Int.{pos}
use picocalc_ubuntu_kernel.Fw.State.{Firmware, act, system_reset, delay_ms}

abbrev pub write_mask : ℕ
write_mask = 2 ^ 7

-- The loop that reads the received bytes: `rcv_idx` goes round the two places of `rcv_data`.
unfoldable pub rcv_loop : List ℕ → Bool → ℕ × ℕ → ℕ × ℕ
rcv_loop [] second d = d
rcv_loop (c ∷ cs) second d = rcv_loop cs (not second) (if second then (d.0, c) else (c, d.1))

abbrev pub answer : ℕ → ℕ → Firmware → Firmware
answer a b s = record s { write_buffer = a ∷ b ∷ [] }

-- A register that is stored as it is written, and read back.
unfoldable pub plain_register : ℕ → Bool → ℕ → (Firmware → Firmware) → Firmware → Firmware
plain_register reg is_write v apply s =
    let s' = if is_write then apply (reg_set_value reg v s) else s in
    answer reg (reg_get_value reg s') s'

unfoldable pub fifo_register : Firmware → Firmware
fifo_register s =
    let (item, f) = fifo_dequeue s.fifo in answer item.key_state item.key (record s { fifo = f })

unfoldable pub key_register : Firmware → Firmware
key_register s =
    let n = fifo_count s.fifo in
    let with_num = bit_or n (if s.kbd.numlock then key_numlock_bit else 0) in
    answer (bit_or with_num (if s.kbd.capslock then key_capslock_bit else 0)) 0 s

unfoldable pub matrix_register : Firmware → Firmware
matrix_register s = record s { write_buffer = reg_id_c64_mtx ∷ tabulate 9 s.io_matrix }

-- A power-off request keeps at least 6 seconds.
unfoldable pub off_register : Bool → ℕ → Firmware → Firmware
off_register is_write v s =
    let s' = if is_write then record s { pmu_online = if ltb v 6 then 6 else v } else s in
    answer reg_id_off 1 s'

-- NVIC_SystemReset does not return: the variables are those of the power-on again, with no answer to
-- send, and `acts` goes on as a log. `setup`, which runs next, is the restart of Link/System's steps.
unfoldable pub rst_register : Bool → ℕ → Firmware → Firmware
rst_register is_write v s =
    let waited = act (delay_ms (if is_write then v * 1000 else 1000)) s in
    record power_on { acts = system_reset ∷ waited.acts }

-- The `switch (reg)`.
unfoldable pub command : ℕ → Bool → ℕ → Firmware → Firmware
command reg is_write v s =
    if reg == reg_id_ver
    then answer 0 bios_version s
    else if reg == reg_id_fif
    then fifo_register s
    else if reg == reg_id_bkl
    then plain_register reg is_write v (lcd_backlight_update (pos 0)) s
    else if reg == reg_id_bk2
    then plain_register reg is_write v (kbd_backlight_update (pos 0)) s
    else if reg == reg_id_bat
    then answer reg (reg_get_value reg_id_bat s) s
    else if reg == reg_id_key
    then key_register s
    else if reg == reg_id_c64_mtx
    then matrix_register s
    else if reg == reg_id_c64_js
    then answer reg s.js_bits s
    else if reg == reg_id_cfg
    then plain_register reg is_write v (λ t. t) s
    else if reg == reg_id_off
    then off_register is_write v s
    else if reg == reg_id_led
    then plain_register reg is_write v (λ t. record t { led_update_pending = true }) s
    else if reg == reg_id_rst
    then rst_register is_write v s
    else answer 0 0 s

-- receiveEvent, with what the stack held where `rcv_data` stands; its tick for the watchdog of the bus
-- is set by receive_watched of Fw/Loop.
unfoldable pub receive_event : ℕ × ℕ → List ℕ → Firmware → Firmware
receive_event stack [] s = s
receive_event stack (c ∷ cs) s =
    let d = rcv_loop (c ∷ cs) false stack in
    command (bit_and d.0 0x7f) (not (bit_and d.0 write_mask == 0)) d.1 s

-- requestEvent: the bytes that are sent; its tick is set by request_watched of Fw/Loop.
unfoldable pub request_event : Firmware → List ℕ × Firmware
request_event s =
    let n = length s.write_buffer in
    if ltb 0 n && leb n 10
    then (s.write_buffer, s)
    else ([], record s { write_buffer = 0 ∷ 0 ∷ [] })

-- ===== src/Fw/Serves.antt =====
-- The commands that come over I2C leave the ring as well formed as the scans do.
use picocalc_ubuntu_kernel.Fw.Regs.Ids.{
  reg_id_ver, reg_id_fif, reg_id_bkl, reg_id_bk2, reg_id_bat, reg_id_key, reg_id_c64_mtx,
  reg_id_c64_js, reg_id_cfg, reg_id_off, reg_id_led, reg_id_rst,
}
use picocalc_ubuntu_kernel.Prelude.Int.{ℤ, pos}
use picocalc_ubuntu_kernel.Fw.Fifo.Queue.{waiting}
use picocalc_ubuntu_kernel.Fw.Events.{FedBy, get-Fed}
use picocalc_ubuntu_kernel.Prelude.{
  Bool, ℕ, List, if_cases, length, ◌∷◌, [], ltb, ◌&&◌, ◌==◌, leb, tabulate, arith,
}
use picocalc_ubuntu_kernel.Fw.State.{Firmware}
use picocalc_ubuntu_kernel.Fw.Regs.{reg_set_value}
use picocalc_ubuntu_kernel.Fw.Bus.{
  command, off_register, plain_register, receive_event, request_event, fifo_register, key_register,
  matrix_register, rst_register,
}
use picocalc_ubuntu_kernel.Fw.Backlight.{kbd_backlight_update, lcd_backlight_update}

plain_register-Fed :
    (reg v : ℕ) (is_write : Bool) (apply : Firmware → Firmware) (s : Firmware)
    → ((t : Firmware) → FedBy t → FedBy (apply t))
    → FedBy s
    → FedBy (plain_register reg is_write v apply s)
unfolding plain_register reg_set_value
plain_register-Fed reg v is_write apply s keeps h =
    if_cases FedBy is_write _ _ (λ _. keeps (reg_set_value reg v s) h) (λ _. h)

lcd_backlight_update-Fed : (v : ℤ) (s : Firmware) → FedBy s → FedBy (lcd_backlight_update v s)
unfolding lcd_backlight_update reg_set_value
lcd_backlight_update-Fed v s h = h

kbd_backlight_update-Fed : (v : ℤ) (s : Firmware) → FedBy s → FedBy (kbd_backlight_update v s)
unfolding kbd_backlight_update reg_set_value
kbd_backlight_update-Fed v s h = h

off_register-Fed :
    (is_write : Bool) (v : ℕ) (s : Firmware) → FedBy s → FedBy (off_register is_write v s)
unfolding off_register
off_register-Fed is_write v s h = if_cases FedBy is_write _ _ (λ _. h) (λ _. h)

-- A reset leaves an empty ring.
rst_register-Fed : (is_write : Bool) (v : ℕ) (s : Firmware) → FedBy (rst_register is_write v s)
unfolding rst_register waiting tabulate
rst_register-Fed is_write v s = record { valid = ground arith; events = tt }

command-Fed :
    (reg v : ℕ) (is_write : Bool) (s : Firmware) → FedBy s → FedBy (command reg is_write v s)
unfolding command fifo_register key_register matrix_register
command-Fed reg v is_write s h =
    if_cases FedBy (reg == reg_id_ver) _ _ (λ _. h)
      λ _.
        if_cases FedBy (reg == reg_id_fif) _ _ (λ _. get-Fed s.fifo h)
          λ _.
            if_cases FedBy (reg == reg_id_bkl) _ _
              (λ _. plain_register-Fed reg v is_write _ s (lcd_backlight_update-Fed (pos 0)) h)
              λ _.
                if_cases FedBy (reg == reg_id_bk2) _ _
                  (λ _. plain_register-Fed reg v is_write _ s (kbd_backlight_update-Fed (pos 0)) h)
                  λ _.
                    if_cases FedBy (reg == reg_id_bat) _ _ (λ _. h)
                      λ _.
                        if_cases FedBy (reg == reg_id_key) _ _ (λ _. h)
                          λ _.
                            if_cases FedBy (reg == reg_id_c64_mtx) _ _ (λ _. h)
                              λ _.
                                if_cases FedBy (reg == reg_id_c64_js) _ _ (λ _. h)
                                  λ _.
                                    if_cases FedBy (reg == reg_id_cfg) _ _
                                      (λ _. plain_register-Fed reg v is_write _ s (λ t k. k) h)
                                      λ _.
                                        if_cases FedBy (reg == reg_id_off) _ _
                                          (λ _. off_register-Fed is_write v s h)
                                          λ _.
                                            if_cases FedBy (reg == reg_id_led) _ _
                                              (λ _.
                                                plain_register-Fed reg v is_write _ s (λ t k. k) h)
                                              λ _.
                                                if_cases FedBy (reg == reg_id_rst) _ _
                                                  (λ _. rst_register-Fed is_write v s) (λ _. h)

pub receive_event-Fed :
    (stack : ℕ × ℕ) (bytes : List ℕ) (s : Firmware) → FedBy s → FedBy (receive_event stack bytes s)
unfolding receive_event
receive_event-Fed stack [] s h = h
receive_event-Fed stack (c ∷ cs) s h = command-Fed _ _ _ s h

pub request_event-Fed : (s : Firmware) → FedBy s → FedBy (request_event s).1
unfolding request_event
request_event-Fed s h =
    let n = length s.write_buffer in
    if_cases {A = List ℕ × Firmware} (λ r. FedBy r.1) (ltb 0 n && leb n 10) _ _ (λ _. h) (λ _. h)

-- ===== src/Fw/Events.antt =====
-- What the firmware puts into the ring: well-formed events only.
pub mod Scans
use picocalc_ubuntu_kernel.Fw.Items.{
  item_freed, item_held, item_pressed, next_item_state, scan_key, start_key, Clock, find_item,
  hold_time, is_free, is_of, key_list_size,
}
use picocalc_ubuntu_kernel.Fw.Scan.{keyboard_process, scan_keys, Look, key_poll_time, scan_order}
use picocalc_ubuntu_kernel.Fw.Backlight.{lcd_backlight_update, kbd_backlight_update}
use picocalc_ubuntu_kernel.Fw.Entries.{Entry, entry, kbd_rows, btn_entries}
use picocalc_ubuntu_kernel.Fw.Regs.Ids.{
  reg_id_cfg, cfg_key_int, reg_id_int, int_key, cfg_overflow_int, int_overflow, cfg_overflow_on,
}
use picocalc_ubuntu_kernel.Fw.State.{Firmware, Mod, mod_none}
use picocalc_ubuntu_kernel.Fw.Regs.{reg_set_bit, reg_is_bit_set, reg_set_value}
use picocalc_ubuntu_kernel.Fw.Keys.{
  pressed, hold, released, key_cb, decide, on_overflow, plain_case, use_mods, alt_case, toggle_caps,
  alt_action, mod_code, report, sent_state, transition_to, set_item, idle, sub32,
}
use picocalc_ubuntu_kernel.Fw.Fifo.Queue.{Valid, drop_oldest, waiting, flush-waiting}
use picocalc_ubuntu_kernel.Fw.Fifo.Refine.{
  queue_force, queue_put, force_refines, put_refines, queue_get, get_refines,
}
use picocalc_ubuntu_kernel.Fw.Fifo.{
  Fifo, KeyItem, fifo_enqueue, fifo_enqueue_force, fifo_dequeue, fifo_flush, fifo_size,
}
use picocalc_ubuntu_kernel.Prelude.{
  refl, List, All, ◌<◌, ◌++◌, ◌≡◌, ◌∷◌, [], ◌⊎◌, if_cases, Bool, ltb, subst, ℕ, if◌then◌else◌,
  length, sym, ap, true, false, not, Option-cases, arith, get_or, inl, some, suc, inr, zero, ◌==◌,
  ◌&&◌, ◌-◌, leb, none,
}

-- A scancode byte with a state that the driver knows.
pub record IsEvent (x : KeyItem) : Type 0 where
  pub byte : x.key < 256
  pub known : (x.key_state ≡ pressed) ⊎ (x.key_state ≡ hold) ⊎ (x.key_state ≡ released)

-- The ring is well formed and holds nothing else.
pub record Fed (f : Fifo) : Type 0 where
  pub valid : Valid f
  pub events : All IsEvent (waiting f)

pub All-append {ℓ κ} :
    {A : Type ℓ} (P : A → Type κ) (xs ys : List A) → All P xs → All P ys → All P (xs ++ ys)
All-append P [] ys h k = k
All-append P (x ∷ xs) ys h k = (h.0, All-append P xs ys h.1 k)

All-drop_oldest : (q : List KeyItem) → All IsEvent q → All IsEvent (drop_oldest q)
All-drop_oldest [] h = h
All-drop_oldest (x ∷ q) h = h.1

queue_put-All :
    (x : KeyItem) (q : List KeyItem) → IsEvent x → All IsEvent q → All IsEvent (queue_put x q).1
unfolding queue_put
queue_put-All x q e h =
    if_cases {A = Bool × List KeyItem} (λ p. All IsEvent p.1) (ltb (length q) fifo_size)
      (true, q ++ x ∷ []) (false, q) (λ _. All-append IsEvent q (x ∷ []) h (e, tt)) (λ _. h)

queue_force-All :
    (x : KeyItem) (q : List KeyItem) → IsEvent x → All IsEvent q → All IsEvent (queue_force x q)
unfolding queue_force
queue_force-All x q e h =
    if_cases (All IsEvent) (ltb (length q) fifo_size) (q ++ x ∷ []) (drop_oldest q ++ x ∷ [])
      (λ _. All-append IsEvent q (x ∷ []) h (e, tt))
      (λ _. All-append IsEvent (drop_oldest q) (x ∷ []) (All-drop_oldest q h) (e, tt))

module _ (x : KeyItem) (f : Fifo) (e : IsEvent x) (v : Fed f) where
  put-Fed : Fed (fifo_enqueue x f).1
  put-Fed =
      let (valid, same) = put_refines f v.valid x in
      record {
        valid = valid;
        events =
            subst (All IsEvent) (sym (ap (λ p. p.1) same)) (queue_put-All x (waiting f) e v.events);
      }

  force-Fed : Fed (fifo_enqueue_force x f)
  force-Fed =
      let (valid, same) = force_refines f v.valid x in
      record {
        valid = valid;
        events = subst (All IsEvent) (sym same) (queue_force-All x (waiting f) e v.events);
      }

flush-Fed : (f : Fifo) → Fed (fifo_flush f)
flush-Fed f =
    let (valid, same) = flush-waiting f in
    record { valid = valid; events = subst (All IsEvent) (sym same) tt }

queue_get-All : (q : List KeyItem) → All IsEvent q → All IsEvent (queue_get q).1
unfolding queue_get
queue_get-All [] h = h
queue_get-All (x ∷ q) h = h.1

pub get-Fed : (f : Fifo) → Fed f → Fed (fifo_dequeue f).1
get-Fed f v =
    let (valid, same) = get_refines f v.valid in
    record {
      valid = valid;
      events = subst (All IsEvent) (sym (ap (λ p. p.1) same)) (queue_get-All (waiting f) v.events);
    }

abbrev pub FedBy : Firmware → Type 0
FedBy s = Fed s.fifo

flag_fifo :
    (b : Bool) (r bit : ℕ) (s : Firmware) → (if b then reg_set_bit r bit s else s).fifo ≡ s.fifo
unfolding reg_set_bit
flag_fifo true r bit s = refl
flag_fifo false r bit s = refl

on_overflow-Fed : (x : KeyItem) (s : Firmware) → IsEvent x → FedBy s → FedBy (on_overflow x s)
unfolding on_overflow
on_overflow-Fed x s e v =
    let b = reg_is_bit_set reg_id_cfg cfg_overflow_int s in
    let noted = if b then reg_set_bit reg_id_int int_overflow s else s in
    let v' : FedBy noted = subst Fed (sym (flag_fifo b reg_id_int int_overflow s)) v in
    if_cases FedBy (reg_is_bit_set reg_id_cfg cfg_overflow_on noted) _ noted
      (λ _. force-Fed x noted.fifo e v') (λ _. v')

pub key_cb-Fed :
    (key state : ℕ) (s : Firmware)
    → IsEvent (record { key = key; key_state = state })
    → FedBy s
    → FedBy (key_cb key state s)
unfolding key_cb
key_cb-Fed key state s e v =
    let item : KeyItem = record { key = key; key_state = state } in
    let b = reg_is_bit_set reg_id_cfg cfg_key_int s in
    let flagged = if b then reg_set_bit reg_id_int int_key s else s in
    let v1 : Fed flagged.fifo = subst Fed (sym (flag_fifo b reg_id_int int_key s)) v in
    let v2 = put-Fed item flagged.fifo e v1 in
    let kept : Firmware = record flagged { fifo = (fifo_enqueue item flagged.fifo).1 } in
    if_cases FedBy (not s.keycb_start) _ _ (λ _. flush-Fed s.fifo)
      λ _.
        if_cases FedBy (fifo_enqueue item flagged.fifo).0 kept (on_overflow item kept) (λ _. v2)
          (λ _. on_overflow-Fed item kept e v2)

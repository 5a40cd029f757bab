-- ===== src/Link/Receive.antt =====
-- The driver's reading of the FIFO: it takes over the firmware's events, all of them and in their order.
use picocalc_ubuntu_kernel.Fw.Fifo.Refine.{get_refines, queue_get}
use picocalc_ubuntu_kernel.Kbd.Worker.Order.{read_items-zero, read_items-value}
use picocalc_ubuntu_kernel.Platform.{map_ret}
use mathlib.Core.List.{map}
use mathlib.Core.Path.{ap₂, sym, subst}
use picocalc_ubuntu_kernel.Fw.Fifo.Queue.{waiting, dequeue-empty, length-waiting, Queue}
use picocalc_ubuntu_kernel.Fw.Events.{IsEvent, Fed, get-Fed}
use picocalc_ubuntu_kernel.Kbd.Worker.{reg_id_fif, read_items, store_item}
use picocalc_ubuntu_kernel.Fw.State.{Firmware}
use picocalc_ubuntu_kernel.Fw.Bus.{receive_event, rcv_loop, command, fifo_register, request_event}
use picocalc_ubuntu_kernel.Link.{controller, List, value, [], Ret}
use picocalc_ubuntu_kernel.Kbd.Context.{FifoItem, kbd_read_i2c_2u8, World}
use picocalc_ubuntu_kernel.Prelude.{
  refl, zero, suc, ℕ, ◌≡◌, ◌+◌, ◌∷◌, length, ◌*◌, ◌<◌, tabulate, ap, arith, ◌%◌, ◌/◌, ◌∙◌, ==_self,
  tabulate-ext, if◌then◌else◌, ◌≤◌, All, ==_ne,
}
use picocalc_ubuntu_kernel.Fw.Fifo.{KeyItem, fifo_dequeue, Fifo, no_item}

abbrev pub item_of : KeyItem → FifoItem
item_of x = record { state = x.key_state; scancode = x.key }

event_small : (x : KeyItem) → IsEvent x → (0 < x.key_state) × (x.key_state < 16)
event_small x e = ground (arith, e.known)

module _ {K : Type 0} (tick : K → ℕ × K) (stack : ℕ × ℕ) where
  -- One transfer from the FIFO register takes one event off the ring.
  fifo_transfer :
      (s : Firmware) (k : K)
      → let (x, f) = fifo_dequeue s.fifo in
        (controller tick stack).read_word (s, k) reg_id_fif ≡ (
          value (x.key_state + 256 * x.key),
          (record s { fifo = f; write_buffer = x.key_state ∷ x.key ∷ [] }, k),
        )
  unfolding controller receive_event rcv_loop command fifo_register request_event
  fifo_transfer s k = refl

  -- The driver's world behind that transfer.
  abbrev behind : KeyItem → Fifo → World (Firmware × K) → World (Firmware × K)
  behind x f w =
      let s : Firmware = record (w.dev.0) { fifo = f; write_buffer = x.key_state ∷ x.key ∷ [] } in
      record w { dev = (s, w.dev.1) }

  round_reads :
      (x : KeyItem) (f : Fifo) (w : World (Firmware × K))
      → fifo_dequeue w.dev.0.fifo ≡ (x, f)
      → x.key_state < 256
      → x.key < 256
      → kbd_read_i2c_2u8 (controller tick stack) reg_id_fif w
        ≡ (value (x.key_state, x.key), behind x f w)
  unfolding kbd_read_i2c_2u8
  round_reads x f w taken state_byte key_byte =
      ap
        (λ (r : Ret ℕ × (Firmware × K)).
          let read : Ret (ℕ × ℕ) × World (Firmware × K) =
            (map_ret (λ v. (v % 256, v / 256 % 256)) r.0, record w { dev = r.1 }) in
          read)
        (fifo_transfer w.dev.0 w.dev.1)
      ∙ rw taken (ap (λ b. (value b, behind x f w)) (ground arith))

  -- After the reading of `q` from index `i` on.
  pub record Received (i : ℕ) (q : List KeyItem) (w w' : World (Firmware × K)) : Type 0 where
    pub counted : w'.ctx.key_fifo_count ≡ i + length q
    pub kept : (j : ℕ) → j < i → w'.ctx.key_fifo_data j ≡ w.ctx.key_fifo_data j
    pub stored : tabulate (length q) (λ j. w'.ctx.key_fifo_data (i + j)) ≡ map item_of q
    pub fed : Fed w'.dev.0.fifo
    pub drained : waiting w'.dev.0.fifo ≡ []
    pub frame : w'.ctx ≡ record (w.ctx) {
      key_fifo_count = w'.ctx.key_fifo_count;
      key_fifo_data = w'.ctx.key_fifo_data;
    }
    pub reports : w'.out ≡ w.out

  nothing_left :
      (n i : ℕ) (w : World (Firmware × K))
      → Fed w.dev.0.fifo
      → waiting w.dev.0.fifo ≡ []
      → fifo_dequeue w.dev.0.fifo ≡ (no_item, w.dev.0.fifo)
      → w.ctx.key_fifo_count ≡ i
      → Received i [] w (read_items (controller tick stack) n i w)
  unfolding tabulate
  nothing_left zero i w fed none_there same e =
      rw (read_items-zero (controller tick stack) i w) (record {
        counted = omega arith;
        kept = λ j h. refl;
        stored = refl;
        fed = fed;
        drained = none_there;
        frame = refl;
        reports = refl;
      })
  nothing_left (suc n) i w fed none_there same e =
      rw
        (read_items-value (controller tick stack) n i 0 0 w (behind no_item w.dev.0.fifo w)
          (round_reads no_item w.dev.0.fifo w same (omega arith) (omega arith)))
        (record {
          counted = omega arith;
          kept = λ j h. refl;
          stored = refl;
          fed = fed;
          drained = none_there;
          frame = refl;
          reports = refl;
        })

  -- One event more in front.
  one_more :
      (i : ℕ) (x : KeyItem) (f : Fifo) (q : List KeyItem) (w w' : World (Firmware × K))
      → x.key_state < 16
      → w.ctx.key_fifo_count ≡ i
      → Received
          (suc i)
          q
          (store_item (controller tick stack) i (x.key_state, x.key) (behind x f w))
          w'
      → Received i (x ∷ q) w w'
  unfolding store_item tabulate
  one_more i x f q w w' small e r = record {
    counted = ground (arith, r.counted);
    kept = λ j h. ground (arith, r.kept j);
    stored =
        ap₂ ◌∷◌
          (ap w'.ctx.key_fifo_data (omega arith)
            ∙ r.kept i (omega arith)
            ∙ ap
                (λ b.
                  if b
                  then item_of (record x { key_state = x.key_state % 16 })
                  else w.ctx.key_fifo_data i)
                (==_self i)
            ∙ ap (λ t. item_of (record x { key_state = t })) (omega (arith, small)))
          (tabulate-ext (length q) _ _ (λ k h. ap w'.ctx.key_fifo_data (omega arith)) ∙ r.stored);
    fed = r.fed;
    drained = r.drained;
    frame = r.frame;
    reports = r.reports;
  }

  pub drains :
      (q : List KeyItem) (n i : ℕ) (w : World (Firmware × K))
      → waiting w.dev.0.fifo ≡ q
      → Fed w.dev.0.fifo
      → length q ≤ n
      → w.ctx.key_fifo_count ≡ i
      → Received i q w (read_items (controller tick stack) n i w)
  unfolding queue_get store_item
  drains [] n i w same fed fits e =
      nothing_left n i w fed same
        (dequeue-empty w.dev.0.fifo (sym (length-waiting w.dev.0.fifo) ∙ ap length same)) e
  drains (x ∷ q) zero i w same fed fits e = absurd (omega (arith, fits))
  drains (x ∷ q) (suc n) i w same fed fits e =
      let f = (fifo_dequeue w.dev.0.fifo).1 in
      let got : ((fifo_dequeue w.dev.0.fifo).0, waiting f) ≡ (x, q) =
        (get_refines w.dev.0.fifo fed.valid).1 ∙ ap queue_get same in
      let taken : fifo_dequeue w.dev.0.fifo ≡ (x, f) = ap (λ (r : KeyItem × Queue). (r.0, f)) got in
      let event : IsEvent x = (subst (All IsEvent) same fed.events).0 in
      let small = event_small x event in
      rw
        (
          read_items-value (controller tick stack) n i x.key_state x.key w (behind x f w)
              (round_reads x f w taken (omega (arith, small)) event.byte),
          ==_ne x.key_state 0 (omega (arith, small)),
        )
        (one_more i x f q w _ (omega (arith, small)) e (
          drains q n (suc i)
            (store_item (controller tick stack) i (x.key_state, x.key) (behind x f w))
            (ap (λ (r : KeyItem × Queue). r.1) got) (get-Fed w.dev.0.fifo fed) (omega (arith, fits))
            (ap suc e)))

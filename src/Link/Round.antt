-- ===== src/Link/Round.antt =====
-- One run of the driver's worker over the firmware's ring.
use picocalc_ubuntu_kernel.Kbd.Dispatch.{run_events}
use picocalc_ubuntu_kernel.Input.{input_sync}
use picocalc_ubuntu_kernel.Link.{controller}
use picocalc_ubuntu_kernel.Link.Receive.{item_of, Received, drains}
use picocalc_ubuntu_kernel.Fw.Fifo.Queue.{waiting, length-waiting}
use picocalc_ubuntu_kernel.Fw.Events.{Fed}
use picocalc_ubuntu_kernel.Kbd.Worker.Order.{event_of, dispatch_items-run}
use picocalc_ubuntu_kernel.Fw.State.{Firmware}
use picocalc_ubuntu_kernel.Kbd.Worker.{input_workqueue_handler, input_fw_read_fifo, kbd_fifo_size}
use picocalc_ubuntu_kernel.Kbd.Context.{World, on_ctx, emit}
use picocalc_ubuntu_kernel.Fw.Fifo.{KeyItem}
use picocalc_ubuntu_kernel.Prelude.{
  refl, ℕ, ◌≡◌, length, List, [], arith, ap, ◌∙◌, tabulate, ◌+◌, sym, map-tabulate,
}
use mathlib.Core.List.{map}

-- What an event of the firmware means to the driver: a physical key and a state.
abbrev pub key_events : List KeyItem → List (ℕ × ℕ)
key_events q = map event_of (map item_of q)

module _ {K : Type 0} (tick : K → ℕ × K) (stack : ℕ × ℕ) where
  abbrev pub fifo_cleared : World (Firmware × K) → World (Firmware × K)
  fifo_cleared w = on_ctx (λ c. record c { key_fifo_count = 0 }) w

  -- The world after the reading, and then after the events `q`.
  pub record Round (q : List KeyItem) (w w' : World (Firmware × K)) : Type 0 where
    pub read : World (Firmware × K)
    pub fed : Fed read.dev.0.fifo
    pub emptied : waiting read.dev.0.fifo ≡ []
    pub same :
        read.ctx
        ≡ record (w.ctx) { key_fifo_count = length q; key_fifo_data = read.ctx.key_fifo_data }
    pub silent : read.out ≡ w.out
    pub handled :
        w' ≡ emit input_sync (fifo_cleared (run_events (controller tick stack) (key_events q) read))

  -- Whatever events wait in the firmware's ring, one run of the worker takes all of them, and handles
  -- them all in the order in which the firmware put them, none dropped, none repeated and none changed,
  -- before it reports a synchronisation and leaves its own array empty.
  pub worker_follows :
      (w : World (Firmware × K))
      → Fed w.dev.0.fifo
      → Round (waiting w.dev.0.fifo) w (input_workqueue_handler (controller tick stack) w)
  unfolding input_workqueue_handler input_fw_read_fifo
  worker_follows w fed =
      let q = waiting w.dev.0.fifo in
      let cleared = on_ctx (λ c. record c { key_fifo_count = 0 }) w in
      let read = input_fw_read_fifo (controller tick stack) w in
      let r : Received tick stack 0 q cleared read =
        drains tick stack q kbd_fifo_size 0 cleared refl fed
          (ground (arith, length-waiting w.dev.0.fifo, fed.valid.fits)) refl in
      record {
        read = read;
        fed = r.fed;
        emptied = r.drained;
        same =
            r.frame
            ∙ ap
                (λ n. record (w.ctx) { key_fifo_count = n; key_fifo_data = read.ctx.key_fifo_data })
                (r.counted ∙ omega arith);
        silent = r.reports;
        handled =
            ap (λ x. emit input_sync (fifo_cleared x))
              (dispatch_items-run (controller tick stack) read.ctx.key_fifo_count 0 read
                ∙ ap (λ es. run_events (controller tick stack) es read)
                    (ap (λ n. tabulate n (λ j. event_of (read.ctx.key_fifo_data (0 + j)))) r.counted
                      ∙ sym (
                          map-tabulate event_of (0 + length q)
                            (λ j. read.ctx.key_fifo_data (0 + j)))
                      ∙ ap (map event_of) (
                          ap (λ n. tabulate n (λ j. read.ctx.key_fifo_data (0 + j))) (omega arith)
                          ∙ r.stored)));
      }

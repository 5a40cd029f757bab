-- ===== src/Fw/Fifo/Refine.antt =====
-- fifo.ino refines a bounded queue.
use picocalc_ubuntu_kernel.Fw.Fifo.Queue.{
  Queue, Valid, drop_oldest, waiting, dequeue-some, enqueue-room, flush-waiting, force-room,
  length-waiting, stored-Valid, waiting-stored, enqueue-full, force-full, replaced-Valid,
  waiting-replaced, waiting-taken, taken-Valid, dequeue-empty, waiting-none,
}
use picocalc_ubuntu_kernel.Fw.Fifo.{
  Fifo, KeyItem, fifo_enqueue, fifo_size, no_item, fifo_dequeue, fifo_enqueue_force, true, false,
  fifo_flush,
}
use picocalc_ubuntu_kernel.Prelude.{
  refl, List, ◌∷◌, length, ◌<◌, ◌≡◌, [], arith, ◌++◌, Bool-cases, if◌then◌else◌, inl, ◌⊎◌, inr, ltb,
  Bool,
}

-- A call of the ring, and what it returns: whether the event was taken, or the event.
pub data Op : Type 0 where
  put force : KeyItem → Op
  get flush : Op

pub data Reply : Type 0 where
  took : Bool → Reply
  gave : KeyItem → Reply
  done : Reply

-- A client's calls in order.
unfoldable pub run : List Op → Fifo → List Reply
run [] f = []
run (put x ∷ ops) f = let (b, f') = fifo_enqueue x f in took b ∷ run ops f'
run (force x ∷ ops) f = done ∷ run ops (fifo_enqueue_force x f)
run (get ∷ ops) f = let (x, f') = fifo_dequeue f in gave x ∷ run ops f'
run (flush ∷ ops) f = done ∷ run ops (fifo_flush f)

-- The same calls of a bounded queue, where a forced event pushes the oldest one out.
unfoldable pub queue_put : KeyItem → Queue → Bool × Queue
queue_put x q = if ltb (length q) fifo_size then (true, q ++ x ∷ []) else (false, q)

unfoldable pub queue_force : KeyItem → Queue → Queue
queue_force x q = if ltb (length q) fifo_size then q ++ x ∷ [] else drop_oldest q ++ x ∷ []

unfoldable pub queue_get : Queue → KeyItem × Queue
queue_get [] = (no_item, [])
queue_get (x ∷ q) = (x, q)

unfoldable pub queue_run : List Op → Queue → List Reply
queue_run [] q = []
queue_run (put x ∷ ops) q = let (b, q') = queue_put x q in took b ∷ queue_run ops q'
queue_run (force x ∷ ops) q = done ∷ queue_run ops (queue_force x q)
queue_run (get ∷ ops) q = let (x, q') = queue_get q in gave x ∷ queue_run ops q'
queue_run (flush ∷ ops) q = done ∷ queue_run ops []

module _ (f : Fifo) (v : Valid f) where
  full_or_room : (f.count < fifo_size) ⊎ (f.count ≡ fifo_size)
  full_or_room = elim (Bool-cases (ltb f.count fifo_size)) [
    | inl h ↦ inl (ground arith)
    | inr h ↦ inr (ground (arith, v.fits))
  ]

  pub put_refines :
      (x : KeyItem)
      → let (b, f') = fifo_enqueue x f in Valid f' × ((b, waiting f') ≡ queue_put x (waiting f))
  unfolding queue_put
  put_refines x = elim full_or_room [
    | inl room ↦
        rw (enqueue-room x f v room, length-waiting f)
          (stored-Valid x f v room, ground (arith, waiting-stored x f v room))
    | inr full ↦ rw (enqueue-full x f v full, length-waiting f) (v, ground arith)
  ]

  pub force_refines :
      (x : KeyItem)
      → Valid (fifo_enqueue_force x f)
        × (waiting (fifo_enqueue_force x f) ≡ queue_force x (waiting f))
  unfolding queue_force
  force_refines x = elim full_or_room [
    | inl room ↦
        rw (force-room x f v room, length-waiting f)
          (stored-Valid x f v room, ground (arith, waiting-stored x f v room))
    | inr full ↦
        rw (force-full x f v full, length-waiting f)
          (replaced-Valid x f v full, ground (arith, waiting-replaced x f v full))
  ]

  pub get_refines :
      let (x, f') = fifo_dequeue f in Valid f' × ((x, waiting f') ≡ queue_get (waiting f))
  unfolding queue_get
  get_refines = elim (Bool-cases (ltb 0 f.count)) [
    | inl h ↦
        let there : 0 < f.count = ground arith in
        rw (dequeue-some f v there, waiting-taken f v there) (taken-Valid f v there, refl)
    | inr none_there ↦ rw (dequeue-empty f (ground arith), waiting-none f (ground arith)) (v, refl)
  ]

-- Whatever calls come, the ring answers as a queue of at most 31 events would: in the order in which
-- they were put, refusing an event when it is full, and losing only the oldest one to a forced event.
pub fifo_refines : (ops : List Op) (f : Fifo) → Valid f → run ops f ≡ queue_run ops (waiting f)
unfolding run queue_run
fifo_refines [] f v = refl
fifo_refines (put x ∷ ops) f v =
    let (v', e) = put_refines f v x in rw (fifo_refines ops (fifo_enqueue x f).1 v', ← e)
fifo_refines (force x ∷ ops) f v =
    let (v', e) = force_refines f v x in rw (fifo_refines ops (fifo_enqueue_force x f) v', e)
fifo_refines (get ∷ ops) f v =
    let (v', e) = get_refines f v in rw (fifo_refines ops (fifo_dequeue f).1 v', ← e)
fifo_refines (flush ∷ ops) f v =
    let (v', e) = flush-waiting f in rw (fifo_refines ops (fifo_flush f) v', e)

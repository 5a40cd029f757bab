-- ===== src/Fw/Fifo/Queue.antt =====
-- The ring against the list of the events that wait in it, the oldest first.
use picocalc_ubuntu_kernel.Fw.Fifo.{
  Fifo, KeyItem, fifo_dequeue, fifo_flush, fifo_enqueue, fifo_size, no_item, false, true, advance,
  fifo_enqueue_force, update, ℕ,
}
use mathlib.Core.Path.{ap₂, ap, sym}
use picocalc_ubuntu_kernel.Prelude.{
  suc, refl, List, ◌∷◌, length, tabulate, ◌<◌, ◌≡◌, ◌≤◌, [], length-tabulate, ◌+◌, arith, ◌%◌, ◌++◌,
  tabulate-append, tabulate-ext, ◌-◌, ◌∙◌,
}

-- The promise of the ring, on lists of at most 31 events.
abbrev pub Queue : Type 0
Queue = List KeyItem

pub record Valid (f : Fifo) : Type 0 where
  pub fits : f.count ≤ fifo_size
  pub read_in : f.read_idx < fifo_size
  pub write_at : f.write_idx ≡ (f.read_idx + f.count) % fifo_size

abbrev pub drop_oldest : Queue → Queue
drop_oldest [] = []
drop_oldest (x ∷ q) = q

-- The events that wait, the oldest first.
unfoldable pub waiting : Fifo → Queue
waiting f = tabulate f.count (λ k. f.fifo ((f.read_idx + k) % fifo_size))

pub length-waiting : (f : Fifo) → length (waiting f) ≡ f.count
unfolding waiting
length-waiting f = length-tabulate f.count _

pub flush-waiting : (f : Fifo) → Valid (fifo_flush f) × (waiting (fifo_flush f) ≡ [])
unfolding fifo_flush waiting tabulate
flush-waiting f = (ground arith, refl)

-- An event written just behind a window of the ring.
window-put :
    (buf : ℕ → KeyItem) (item : KeyItem) (r c w : ℕ)
    → r < fifo_size
    → c < fifo_size
    → w ≡ (r + c) % fifo_size
    → tabulate (c + 1) (λ k. update buf w item ((r + k) % fifo_size))
      ≡ tabulate c (λ k. buf ((r + k) % fifo_size)) ++ item ∷ []
unfolding tabulate
window-put buf item r c w small room e =
    tabulate-append c 1 _
    ∙ ap₂ ◌++◌ (tabulate-ext c _ _ (λ k h. ground arith)) (ap (λ x. x ∷ []) (ground arith))

-- The window is its first event and the window behind that.
pub window-first :
    (buf : ℕ → KeyItem) (r c : ℕ)
    → r < fifo_size
    → tabulate (suc c) (λ k. buf ((r + k) % fifo_size))
      ≡ buf r ∷ tabulate c (λ k. buf ((advance r + k) % fifo_size))
unfolding tabulate
window-first buf r c small =
    ap₂ ◌∷◌ (ap buf (omega arith)) (tabulate-ext c _ _ (λ k h. ap buf (omega arith)))

module _ (item : KeyItem) (f : Fifo) (v : Valid f) where
  pub enqueue-full : f.count ≡ fifo_size → fifo_enqueue item f ≡ (false, f)
  unfolding fifo_enqueue
  enqueue-full full = ground arith

  -- The ring with the event stored, and the ring where it replaced the oldest one.
  pub stored : Fifo
  stored = record f {
    fifo = update f.fifo f.write_idx item;
    write_idx = advance f.write_idx;
    count = f.count + 1;
  }

  pub replaced : Fifo
  replaced = record f {
    fifo = update f.fifo f.write_idx item;
    write_idx = advance f.write_idx;
    read_idx = advance f.read_idx;
  }

  pub enqueue-room : f.count < fifo_size → fifo_enqueue item f ≡ (true, stored)
  unfolding fifo_enqueue stored
  enqueue-room room = ground arith

  pub stored-Valid : f.count < fifo_size → Valid stored
  unfolding stored
  stored-Valid room = ground arith

  pub waiting-stored : f.count < fifo_size → waiting stored ≡ waiting f ++ item ∷ []
  unfolding stored waiting
  waiting-stored room =
      window-put f.fifo item f.read_idx f.count f.write_idx v.read_in room v.write_at

  pub force-full : f.count ≡ fifo_size → fifo_enqueue_force item f ≡ replaced
  unfolding fifo_enqueue_force replaced
  force-full full = rw (enqueue-full full)

  pub force-room : f.count < fifo_size → fifo_enqueue_force item f ≡ stored
  unfolding fifo_enqueue_force
  force-room room = rw (enqueue-room room)

  pub replaced-Valid : f.count ≡ fifo_size → Valid replaced
  unfolding replaced
  replaced-Valid full = ground arith

  pub waiting-replaced :
      f.count ≡ fifo_size → waiting replaced ≡ drop_oldest (waiting f) ++ item ∷ []
  unfolding replaced waiting tabulate
  waiting-replaced full = rw full (
      window-put f.fifo item (advance f.read_idx) 30 f.write_idx (ground arith) (ground arith)
        (ground arith)
      ∙ ap (λ q. drop_oldest q ++ item ∷ []) (sym (window-first f.fifo f.read_idx 30 v.read_in)))

module _ (f : Fifo) (v : Valid f) where
  pub taken : Fifo
  taken = record f { read_idx = advance f.read_idx; count = f.count - 1 }

  pub dequeue-some : 0 < f.count → fifo_dequeue f ≡ (f.fifo f.read_idx, taken)
  unfolding fifo_dequeue taken
  dequeue-some some_there = ground arith

  pub taken-Valid : 0 < f.count → Valid taken
  unfolding taken
  taken-Valid some_there = ground arith

  pub waiting-taken : 0 < f.count → waiting f ≡ f.fifo f.read_idx ∷ waiting taken
  unfolding taken waiting tabulate
  waiting-taken some_there =
      let e : f.count ≡ suc (f.count - 1) = omega arith in
      ap (λ n. tabulate n (λ k. f.fifo ((f.read_idx + k) % fifo_size))) e
      ∙ window-first f.fifo f.read_idx (f.count - 1) v.read_in

pub waiting-none : (f : Fifo) → f.count ≡ 0 → waiting f ≡ []
unfolding waiting tabulate
waiting-none f e = rw e

pub dequeue-empty : (f : Fifo) → f.count ≡ 0 → fifo_dequeue f ≡ (no_item, f)
unfolding fifo_dequeue
dequeue-empty f none_there = ground arith

-- ===== src/Task/Keyboard.antt =====
-- kernel/src/task/keyboard.rs: scancodes go from the interrupt handler to the task that prints them.
pub mod Interleaving
pub mod Print
use nocciolo.Base.{
  ℕ, ◌<◌, ◌≤◌, ◌≡◌, ◌⊎◌, Outcome, ok, panic, ◌>>=◌, unwrap, Option, none, some, List, [], ◌∷◌, ◌++◌,
  length,
}

-- The crates `crossbeam_queue` and `futures_util`, as a parameter: `ArrayQueue` and `AtomicWaker`. A
-- waker is the identifier of its task.
pub record Primitives : Type 1 where
  pub Queue : Type 0
  pub new : ℕ → Queue
  -- `none` where the queue is full.
  pub push : ℕ → Queue → Option Queue
  pub pop : Queue → Option (ℕ × Queue)
  pub Cell : Type 0
  pub register : ℕ → Cell → Cell
  pub take : Cell → Option ℕ × Cell

-- The documented behaviour: a bounded queue, first in, first out, and a cell for the last waker.
pub record IsPrimitives (P : Primitives) : Type 0 where
  pub contents : P.Queue → List ℕ
  pub capacity : P.Queue → ℕ
  pub new-contents : (n : ℕ) → (contents (P.new n) ≡ []) × (capacity (P.new n) ≡ n)
  pub push-room :
      (x : ℕ) (q : P.Queue)
      → length (contents q) < capacity q
      → (q' : P.Queue) × (P.push x q ≡ some q')
        × (contents q' ≡ contents q ++ x ∷ [])
        × (capacity q' ≡ capacity q)
  pub push-full : (x : ℕ) (q : P.Queue) → capacity q ≤ length (contents q) → P.push x q ≡ none
  pub pop-empty : (q : P.Queue) → contents q ≡ [] → P.pop q ≡ none
  pub pop-first :
      (x : ℕ) (xs : List ℕ) (q : P.Queue)
      → contents q ≡ x ∷ xs
      → (q' : P.Queue) × (P.pop q ≡ some (x, q')) × (contents q' ≡ xs) × (capacity q' ≡ capacity q)
  pub holds : P.Cell → Option ℕ
  pub register-holds : (w : ℕ) (c : P.Cell) → holds (P.register w c) ≡ some w
  pub take-holds : (c : P.Cell) → ((P.take c).0 ≡ holds c) × (holds (P.take c).1 ≡ none)

-- `Poll<Option<u8>>` of a stream that does not end.
pub data Poll : Type 0 where
  ready : ℕ → Poll
  pending : Poll

module _ (P : Primitives) where
  -- The statics: `SCANCODE_QUEUE` and `WAKER`.
  pub record Keyboard : Type 0 where
    pub queue : Option P.Queue
    pub waker : P.Cell

  -- `ScancodeStream::new`.
  pub new_stream : Keyboard → Outcome Keyboard
  new_stream k = elim k.queue [ none ↦ ok (record k { queue = some (P.new 100) }) | some _ ↦ panic ]

  -- The second look at the queue, with the waker registered.
  pub second_look : Option (ℕ × P.Queue) → P.Queue → P.Cell → Poll × Keyboard
  second_look none queue waker = (pending, record { queue = some queue; waker = waker })
  second_look (some (scancode, queue')) queue waker =
      (ready scancode, record { queue = some queue'; waker = (P.take waker).1 })

  -- The fast path, or what follows it, for the task with the given waker.
  pub first_look : ℕ → Option (ℕ × P.Queue) → P.Queue → P.Cell → Poll × Keyboard
  unfolding second_look
  first_look cx none queue waker = second_look (P.pop queue) queue (P.register cx waker)
  first_look cx (some (scancode, queue')) queue waker =
      (ready scancode, record { queue = some queue'; waker = waker })

  pub poll_next : ℕ → Keyboard → Outcome (Poll × Keyboard)
  unfolding first_look
  poll_next cx k = do queue ← unwrap k.queue; ok (first_look cx (P.pop queue) queue k.waker)

  -- After a push, with the waker that was woken, if any.
  pub pushed : Option P.Queue → Keyboard → Option ℕ × Keyboard
  pushed none k = (none, k)
  pushed (some queue') k =
      let (woken, waker') = P.take k.waker in
      (woken, record { queue = some queue'; waker = waker' })

  pub add_scancode : ℕ → Keyboard → Option ℕ × Keyboard
  unfolding pushed
  add_scancode scancode k = elim k.queue [
    | none ↦ (none, k)
    | some queue ↦ pushed (P.push scancode queue) k
  ]

-- ===== src/Task/Simple/Rounds.antt =====
-- The simple executor ends where every task needs only so many polls.
mod Examples
use nocciolo.Base.{
  ℕ, zero, suc, ◌+◌, ◌≤◌, ◌<◌, ◌≡◌, ◌≢◌, refl, ap, ◌∙◌, Bool, true, false, Bool-cases, inl, inr,
  List, [], ◌∷◌, ◌++◌, All, All-append, arith,
}
use nocciolo.Task.{Futures}
use nocciolo.Task.Simple.{requeue, simple_run}

module _ (F : Futures) where
  -- How many more polls a task needs: a poll that does not end it takes one away, and none adds to
  -- another's.
  pub record IsProgressing (needs : F.World → ℕ → ℕ) : Type 0 where
    pub fewer :
        (task : ℕ) (w : F.World)
        → (F.poll task w).0 ≡ false
        → suc (needs (F.poll task w).2 task) ≤ needs w task
    pub others :
        (task : ℕ) (w : F.World) (other : ℕ) → needs (F.poll task w).2 other ≤ needs w other

  module _ (needs : F.World → ℕ → ℕ) (I : IsProgressing needs) where
    -- The polls that the tasks of a queue need together, the last one of each included.
    abbrev pub polls_needed : List ℕ → F.World → ℕ
    polls_needed [] w = 0
    polls_needed (task ∷ queue) w = suc (needs w task) + polls_needed queue w

    needed-append :
        (xs ys : List ℕ) (w : F.World)
        → polls_needed (xs ++ ys) w ≡ polls_needed xs w + polls_needed ys w
    needed-append [] ys w = omega arith
    needed-append (x ∷ xs) ys w = omega (arith, needed-append xs ys w)

    needed-poll :
        (queue : List ℕ) (task : ℕ) (w : F.World)
        → polls_needed queue (F.poll task w).2 ≤ polls_needed queue w
    needed-poll [] task w = omega arith
    needed-poll (x ∷ queue) task w = omega (arith, needed-poll queue task w, I.others task w x)

    needed-requeue :
        (ready : Bool) (queue : List ℕ) (task : ℕ) (w : F.World)
        → (F.poll task w).0 ≡ ready
        → suc (polls_needed (requeue F ready task queue) (F.poll task w).2)
          ≤ polls_needed (task ∷ queue) w
    needed-requeue true queue task w e = omega (arith, needed-poll queue task w)
    needed-requeue false queue task w e = omega (
      arith,
      needed-append queue (task ∷ []) (F.poll task w).2,
      needed-poll queue task w,
      I.fewer task w e,
    )

    -- Where each task needs only so many polls and no poll adds to what another needs, a run of the
    -- simple executor with more polls than all need together ends with an empty queue.
    pub simple_run-finishes :
        (polls : ℕ) (queue : List ℕ) (w : F.World)
        → polls_needed queue w < polls
        → (w' : F.World) × (simple_run F polls queue w ≡ (true, [], w'))
    unfolding simple_run
    simple_run-finishes zero queue w enough = absurd (omega arith)
    simple_run-finishes (suc polls) [] w enough = (w, refl)
    simple_run-finishes (suc polls) (task ∷ queue) w enough =
        simple_run-finishes polls (requeue F (F.poll task w).0 task queue) (F.poll task w).2
          (omega (arith, needed-requeue (F.poll task w).0 queue task w refl))

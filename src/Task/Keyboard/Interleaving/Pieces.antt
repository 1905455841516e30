-- ===== src/Task/Keyboard/Interleaving/Pieces.antt =====
-- The pieces, run one after the other, are `poll_next` and `add_scancode` of task/keyboard.rs.
use nocciolo.Base.{
  ℕ, ◌≡◌, inl, inr, refl, ap, sym, ◌∙◌, ok, Option, none, some, Option-cases, List, [], ◌∷◌, ◌++◌,
}
use mathlib.Core.List.{append-nil}
use nocciolo.Task.Keyboard.{
  Primitives, Poll, ready, pending, Keyboard, first_look, second_look, poll_next, pushed,
  add_scancode,
}
use nocciolo.Task.Keyboard.Interleaving.{
  Phase, looking, asleep, Run, look, look_again, step_at, step, accept, interrupt, steps,
}

-- The phase after a poll, and the scancode that it delivered.
abbrev pub phase_after : Poll → Phase
phase_after (ready scancode) = looking
phase_after pending = asleep

abbrev pub shown : Poll → List ℕ
shown (ready scancode) = scancode ∷ []
shown pending = []

-- The pieces that a poll takes.
abbrev pub piece_count : Poll → ℕ
piece_count (ready scancode) = 1
piece_count pending = 3

module _ (P : Primitives) where
  -- The statics, in a state of the run.
  abbrev pub statics : Run P → Keyboard P
  statics r = record { queue = some r.queue; waker = r.waker }

  stepping : (cx : ℕ) (r : Run P) {p : Phase} → r.phase ≡ p → step P cx r ≡ step_at P cx p r
  unfolding step
  stepping cx r e = ap (λ p. step_at P cx p r) e

  -- From before the fast path, poll_next does what the pieces do when no interrupt comes between
  -- them, one piece where it is ready and three where it is pending: the same queue and waker, the
  -- phase after its result, and its scancode delivered.
  pub poll_next-steps :
      (cx : ℕ) (r : Run P)
      → r.phase ≡ looking
      → (poll : Poll) × (poll_next P cx (statics r)
          ≡ ok (poll, statics (steps P cx (piece_count poll) r)))
        × ((steps P cx (piece_count poll) r).phase ≡ phase_after poll)
        × ((steps P cx (piece_count poll) r).delivered ≡ r.delivered ++ shown poll)
  unfolding poll_next first_look second_look steps step_at look look_again step
  poll_next-steps cx r at = elim (Option-cases (P.pop r.queue)) [
    | inr ((x, q'), first) ↦
        let s = record r { queue = q'; delivered = r.delivered ++ x ∷ [] } in
        let run : steps P cx 1 r ≡ s = stepping cx r at ∙ ap (λ o. look P o r) first in
        (
          ready x,
          ap (λ o. ok (first_look P cx o r.queue r.waker)) first
              ∙ ap (λ t. ok (ready x, statics t)) (sym run),
          ap (λ t. t.phase) run ∙ at,
          ap (λ t. t.delivered) run,
        )
    | inl empty ↦
        let s = record r { waker = P.register cx r.waker; phase = asleep } in
        let run : steps P cx 3 r ≡ s =
          ap (λ t. steps P cx 2 t) (stepping cx r at ∙ ap (λ o. look P o r) empty)
          ∙ ap (λ o. look_again P o (record s { phase = Phase.looking_again })) empty in
        (
          pending,
          ap (λ o. ok (first_look P cx o r.queue r.waker)) empty
              ∙ ap (λ o. ok (second_look P o r.queue (P.register cx r.waker))) empty
              ∙ ap (λ t. ok (pending, statics t)) (sym run),
          ap (λ t. t.phase) run,
          ap (λ t. t.delivered) run ∙ sym (append-nil r.delivered),
        )
  ]

  pushed-accept :
      (o : Option P.Queue) (x : ℕ) (r : Run P)
      → (pushed P o (statics r)).1 ≡ statics (accept P o x r)
  unfolding pushed accept
  pushed-accept none x r = refl
  pushed-accept (some q') x r = refl

  pub add_scancode-interrupt :
      (x : ℕ) (r : Run P) → (add_scancode P x (statics r)).1 ≡ statics (interrupt P x r)
  unfolding add_scancode interrupt
  add_scancode-interrupt x r = pushed-accept (P.push x r.queue) x r

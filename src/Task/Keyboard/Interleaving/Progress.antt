-- ===== src/Task/Keyboard/Interleaving/Progress.antt =====
-- Left alone, the task delivers every scancode that was accepted.
use nocciolo.Base.{
  ℕ, suc, ◌≡◌, ◌⊎◌, inl, inr, refl, ap, sym, subst, ◌∙◌, true, false, some, List, [], ◌∷◌, ◌++◌,
}
use mathlib.Core.List.{append-nil}
use nocciolo.Task.Keyboard.{Primitives, IsPrimitives}
use nocciolo.Task.Keyboard.Interleaving.{
  Phase, looking, registering, looking_again, taking, asleep, Run, look, look_again, poll_again,
  step_at, step, steps, Reach,
}
use nocciolo.Task.Keyboard.Interleaving.Delivery.{
  in_hand, Holds, pop-cases, step_at-Holds, Reach-Holds,
}

module _ (P : Primitives) (L : IsPrimitives P) where
  -- Left alone, the task delivers all that was accepted.
  Delivers : ℕ → Run P → Type 0
  Delivers cx r = (n : ℕ) × ((steps P cx n r).delivered ≡ r.accepted)

  later :
      (cx : ℕ) (r s : Run P)
      → step P cx r ≡ s
      → s.accepted ≡ r.accepted
      → Delivers cx s
      → Delivers cx r
  unfolding Delivers steps
  later cx r s e same (n, all) = (suc n, ap (λ t. (steps P cx n t).delivered) e ∙ all ∙ same)

  -- The next state, where the phase is known.
  stepping : (cx : ℕ) (r : Run P) {p : Phase} → r.phase ≡ p → step P cx r ≡ step_at P cx p r
  unfolding step
  stepping cx r e = ap (λ p. step_at P cx p r) e

  next-Holds :
      (cx : ℕ) (r : Run P) → Holds P L cx r.phase r → Holds P L cx (step P cx r).phase (step P cx r)
  unfolding step
  next-Holds cx r h = step_at-Holds P L cx r.phase r refl h

  -- Nothing is left to do.
  nothing_left :
      (cx : ℕ) (r : Run P) (p : Phase)
      → in_hand p ≡ []
      → Holds P L cx p r
      → L.contents r.queue ≡ []
      → Delivers cx r
  unfolding Delivers steps
  nothing_left cx r p hand h empty = (
    0,
    sym (
        h.order
        ∙ ap (λ l. r.delivered ++ (l ++ L.contents r.queue)) hand
        ∙ ap (λ l. r.delivered ++ l) empty
        ∙ append-nil r.delivered),
  )

  from_looking :
      (cx : ℕ) (xs : List ℕ) (r : Run P)
      → L.contents r.queue ≡ xs
      → r.phase ≡ looking
      → Holds P L cx r.phase r
      → Delivers cx r
  unfolding step_at look
  from_looking cx [] r e at h =
      nothing_left cx r looking refl (subst (λ p. Holds P L cx p r) at h) e
  from_looking cx (x ∷ xs) r e at h =
      let (q', first, rest, same) = L.pop-first x xs r.queue e in
      let s = record r { queue = q'; delivered = r.delivered ++ x ∷ [] } in
      let run : step P cx r ≡ s = stepping cx r at ∙ ap (λ o. look P o r) first in
      later cx r s run refl
        (from_looking cx xs s rest at (subst (λ t. Holds P L cx t.phase t) run (next-Holds cx r h)))

  from_taking : (cx x : ℕ) (r : Run P) → r.phase ≡ taking x → Holds P L cx r.phase r → Delivers cx r
  unfolding step_at
  from_taking cx x r at h =
      let s = record r {
        waker = (P.take r.waker).1;
        delivered = r.delivered ++ x ∷ [];
        phase = looking;
      } in
      let run : step P cx r ≡ s = stepping cx r at in
      later cx r s run refl (
        from_looking cx (L.contents r.queue) s refl refl
          (subst (λ t. Holds P L cx t.phase t) run (next-Holds cx r h)))

  from_looking_again :
      (cx : ℕ) (r : Run P) → r.phase ≡ looking_again → Holds P L cx r.phase r → Delivers cx r
  unfolding step_at look_again
  from_looking_again cx r at h = elim (pop-cases P L r.queue) [
    | inl (none_left, empty) ↦
        nothing_left cx r looking_again refl (subst (λ p. Holds P L cx p r) at h) empty
    | inr (x, q', first, parts, same) ↦
        let s = record r { queue = q'; phase = taking x } in
        let run : step P cx r ≡ s = stepping cx r at ∙ ap (λ o. look_again P o r) first in
        later cx r s run refl
          (from_taking cx x s refl (subst (λ t. Holds P L cx t.phase t) run (next-Holds cx r h)))
  ]

  from_asleep : (cx : ℕ) (r : Run P) → r.phase ≡ asleep → Holds P L cx r.phase r → Delivers cx r
  unfolding step_at poll_again
  from_asleep cx r at h =
      woken_or_not (subst (λ p. Holds P L cx p r) at h)
        (alert_of (subst (λ p. Holds P L cx p r) at h))
    where
      alert_of :
          Holds P L cx asleep r
          → (r.woken ≡ true) ⊎ ((L.holds r.waker ≡ some cx) × (L.contents r.queue ≡ []))
      alert_of k = k.alert

      woken_or_not :
          Holds P L cx asleep r
          → (r.woken ≡ true) ⊎ ((L.holds r.waker ≡ some cx) × (L.contents r.queue ≡ []))
          → Delivers cx r
      woken_or_not k (inr (held, empty)) = nothing_left cx r asleep refl k empty
      woken_or_not k (inl woken) =
          let s = record r { woken = false; phase = looking } in
          let run : step P cx r ≡ s = stepping cx r at ∙ ap (λ b. poll_again P b r) woken in
          later cx r s run refl (
            from_looking cx (L.contents r.queue) s refl refl
              (subst (λ t. Holds P L cx t.phase t) run (next-Holds cx r h)))

  from_phase :
      (cx : ℕ) (p : Phase) (r : Run P) → r.phase ≡ p → Holds P L cx r.phase r → Delivers cx r
  unfolding step_at
  from_phase cx looking r at h = from_looking cx (L.contents r.queue) r refl at h
  from_phase cx registering r at h =
      let s = record r { waker = P.register cx r.waker; phase = looking_again } in
      let run : step P cx r ≡ s = stepping cx r at in
      later cx r s run refl
        (from_looking_again cx s refl (subst (λ t. Holds P L cx t.phase t) run (next-Holds cx r h)))
  from_phase cx looking_again r at h = from_looking_again cx r at h
  from_phase cx (taking x) r at h = from_taking cx x r at h
  from_phase cx asleep r at h = from_asleep cx r at h

  -- Wherever the keyboard interrupt came between the pieces of the task, the task left alone comes,
  -- after some number of pieces, to have delivered every scancode that was accepted, in order.
  pub Reach-delivers :
      (cx : ℕ) {r : Run P} → Reach P cx r → (n : ℕ) × ((steps P cx n r).delivered ≡ r.accepted)
  unfolding Delivers
  Reach-delivers cx {r} from = from_phase cx r.phase r refl (Reach-Holds P L cx from)

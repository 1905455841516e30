-- ===== src/Task/Keyboard/Interleaving/Delivery.antt =====
-- No scancode is lost between the interrupt and the task, and no wakeup either.
use nocciolo.Base.{
  ℕ, ◌≡◌, ◌⊎◌, inl, inr, refl, ap, sym, subst, ◌∙◌, Bool, true, false, Bool-cases, Option, none,
  some, List, [], ◌∷◌, ◌++◌, length, lt_or_le,
}
use mathlib.Core.List.{append_assoc}
use nocciolo.Task.Keyboard.{Primitives, IsPrimitives}
use nocciolo.Task.Keyboard.Interleaving.{
  Phase, looking, registering, looking_again, taking, asleep, Run, look, look_again, poll_again,
  step_at, step, woken_by, accept, interrupt, Reach, start, stepped, interrupted,
}

-- The scancode that was popped and not yet delivered.
abbrev pub in_hand : Phase → List ℕ
in_hand (taking scancode) = scancode ∷ []
in_hand _ = []

module _ (P : Primitives) (L : IsPrimitives P) where
  -- A waker is registered, or the task is to be polled again.
  abbrev pub Alert : ℕ → Phase → Run P → Type 0
  Alert cx looking_again r = (r.woken ≡ true) ⊎ (L.holds r.waker ≡ some cx)
  Alert cx asleep r = (r.woken ≡ true) ⊎ ((L.holds r.waker ≡ some cx) × (L.contents r.queue ≡ []))
  Alert cx _ r = Unit

  -- What always holds, in the given phase.
  pub record Holds (cx : ℕ) (p : Phase) (r : Run P) : Type 0 where
    pub capacity : L.capacity r.queue ≡ 100
    pub order : r.accepted ≡ r.delivered ++ (in_hand p ++ L.contents r.queue)
    pub alert : Alert cx p r

  pub pop-cases :
      (q : P.Queue)
      → ((P.pop q ≡ none) × (L.contents q ≡ []))
        ⊎ ((x : ℕ) × (q' : P.Queue) × (P.pop q ≡ some (x, q'))
            × (L.contents q ≡ x ∷ L.contents q')
            × (L.capacity q' ≡ L.capacity q))
  pop-cases q = on (L.contents q) refl
    where
      on :
          (xs : List ℕ)
          → L.contents q ≡ xs
          → ((P.pop q ≡ none) × (L.contents q ≡ []))
            ⊎ ((x : ℕ) × (q' : P.Queue) × (P.pop q ≡ some (x, q'))
                × (L.contents q ≡ x ∷ L.contents q')
                × (L.capacity q' ≡ L.capacity q))
      on [] e = inl (L.pop-empty q e, e)
      on (x ∷ xs) e =
          let (q', run, rest, same) = L.pop-first x xs q e in
          inr (x, q', run, e ∙ ap (◌∷◌ x) (sym rest), same)

  look-Holds :
      (cx : ℕ) (r : Run P)
      → r.phase ≡ looking
      → Holds cx looking r
      → Holds cx (look P (P.pop r.queue) r).phase (look P (P.pop r.queue) r)
  unfolding look
  look-Holds cx r e h = elim (pop-cases r.queue) [
    | inl (none_left, empty) ↦
        subst (λ o. Holds cx (look P o r).phase (look P o r)) (sym none_left)
          (record { capacity = h.capacity; order = h.order; alert = tt })
    | inr (x, q', first, parts, same) ↦
        subst (λ o. Holds cx (look P o r).phase (look P o r)) (sym first)
          (subst (λ p. Holds cx p (look P (some (x, q')) r)) (sym e)
            (record {
              capacity = same ∙ h.capacity;
              order =
                  h.order
                  ∙ ap (λ l. r.delivered ++ l) parts
                  ∙ sym (append_assoc r.delivered (x ∷ []) (L.contents q'));
              alert = tt;
            }))
  ]

  look_again-Holds :
      (cx : ℕ) (r : Run P)
      → Holds cx looking_again r
      → Holds cx (look_again P (P.pop r.queue) r).phase (look_again P (P.pop r.queue) r)
  unfolding look_again
  look_again-Holds cx r h = elim (pop-cases r.queue) [
    | inl (none_left, empty) ↦
        subst (λ o. Holds cx (look_again P o r).phase (look_again P o r)) (sym none_left)
          (record {
            capacity = h.capacity;
            order = h.order;
            alert = elim h.alert [ inl woken ↦ inl woken | inr held ↦ inr (held, empty) ];
          })
    | inr (x, q', first, parts, same) ↦
        subst (λ o. Holds cx (look_again P o r).phase (look_again P o r)) (sym first)
          (record {
            capacity = same ∙ h.capacity;
            order = h.order ∙ ap (λ l. r.delivered ++ l) parts;
            alert = tt;
          })
  ]

  pub step_at-Holds :
      (cx : ℕ) (p : Phase) (r : Run P)
      → r.phase ≡ p
      → Holds cx p r
      → Holds cx (step_at P cx p r).phase (step_at P cx p r)
  unfolding step_at poll_again
  step_at-Holds cx looking r e h = look-Holds cx r e h
  step_at-Holds cx registering r e h = record {
    capacity = h.capacity;
    order = h.order;
    alert = inr (L.register-holds cx r.waker);
  }
  step_at-Holds cx looking_again r e h = look_again-Holds cx r h
  step_at-Holds cx (taking x) r e h = record {
    capacity = h.capacity;
    order = h.order ∙ sym (append_assoc r.delivered (x ∷ []) (L.contents r.queue));
    alert = tt;
  }
  step_at-Holds cx asleep r e h = elim (Bool-cases r.woken) [
    | inl woken ↦
        subst (λ b. Holds cx (poll_again P b r).phase (poll_again P b r)) (sym woken)
          (record { capacity = h.capacity; order = h.order; alert = tt })
    | inr quiet ↦
        subst (λ b. Holds cx (poll_again P b r).phase (poll_again P b r)) (sym quiet)
          (subst (λ p. Holds cx p r) (sym e) h)
  ]

  woken_by-taken :
      (cx : ℕ) (c : P.Cell) (b : Bool)
      → (b ≡ true) ⊎ (L.holds c ≡ some cx)
      → woken_by P (P.take c).0 b ≡ true
  unfolding woken_by
  woken_by-taken cx c b (inl woken) = kept (P.take c).0 b woken
    where
      kept : (o : Option ℕ) (b : Bool) → b ≡ true → woken_by P o b ≡ true
      kept none b e = e
      kept (some w) b e = refl
  woken_by-taken cx c b (inr held) = ap (λ o. woken_by P o b) ((L.take-holds c).0 ∙ held)

  interrupt-Holds : (cx x : ℕ) (p : Phase) (r : Run P) → Holds cx p r → Holds cx p (interrupt P x r)
  unfolding interrupt accept
  interrupt-Holds cx x p r h = elim (lt_or_le (length (L.contents r.queue)) (L.capacity r.queue)) [
    | inl room ↦
        let (q', run, tail, same) = L.push-room x r.queue room in
        subst (λ o. Holds cx p (accept P o x r)) (sym run)
          (record {
            capacity = same ∙ h.capacity;
            order =
                ap (λ l. l ++ x ∷ []) h.order
                ∙ append_assoc r.delivered (in_hand p ++ L.contents r.queue) (x ∷ [])
                ∙ ap (λ l. r.delivered ++ l)
                    (append_assoc (in_hand p) (L.contents r.queue) (x ∷ []))
                ∙ ap (λ l. r.delivered ++ (in_hand p ++ l)) (sym tail);
            alert = alerted q' p h.alert;
          })
    | inr full ↦ subst (λ o. Holds cx p (accept P o x r)) (sym (L.push-full x r.queue full)) h
  ]
    where
      alerted : (q' : P.Queue) (p : Phase) → Alert cx p r → Alert cx p (accept P (some q') x r)
      alerted q' looking a = tt
      alerted q' registering a = tt
      alerted q' (taking y) a = tt
      alerted q' looking_again a = inl (woken_by-taken cx r.waker r.woken a)
      alerted q' asleep (inl woken) = inl (woken_by-taken cx r.waker r.woken (inl woken))
      alerted q' asleep (inr (held, empty)) = inl (woken_by-taken cx r.waker r.woken (inr held))

  accept-phase : (o : Option P.Queue) (x : ℕ) (r : Run P) → (accept P o x r).phase ≡ r.phase
  unfolding accept
  accept-phase none x r = refl
  accept-phase (some q') x r = refl

  pub Reach-Holds : (cx : ℕ) {r : Run P} → Reach P cx r → Holds cx r.phase r
  unfolding step interrupt
  Reach-Holds cx start =
      let (empty, capacity) = L.new-contents 100 in
      record { capacity = capacity; order = sym empty; alert = tt }
  Reach-Holds cx (stepped {r} from) = step_at-Holds cx r.phase r refl (Reach-Holds cx from)
  Reach-Holds cx (interrupted {r} x from) =
      subst (λ p. Holds cx p (interrupt P x r)) (sym (accept-phase (P.push x r.queue) x r))
        (interrupt-Holds cx x r.phase r (Reach-Holds cx from))

  pub Reach-order :
      (cx : ℕ) {r : Run P}
      → Reach P cx r
      → r.accepted ≡ r.delivered ++ (in_hand r.phase ++ L.contents r.queue)
  Reach-order cx from = let h = Reach-Holds cx from in h.order

  -- No wakeup is lost: in every state that the task and the interrupts reach, a task that is
  -- pending and was not woken has its waker registered, and the queue is empty.
  pub Reach-asleep :
      (cx : ℕ) {r : Run P}
      → Reach P cx r
      → r.phase ≡ asleep
      → r.woken ≡ false
      → (L.holds r.waker ≡ some cx) × (L.contents r.queue ≡ [])
  Reach-asleep cx {r} from e quiet =
      elim (alert_asleep (subst (λ p. Holds cx p r) e (Reach-Holds cx from))) [
        | inl woken ↦ absurd (cc)
        | inr waiting ↦ waiting
      ]
    where
      alert_asleep :
          Holds cx asleep r
          → (r.woken ≡ true) ⊎ ((L.holds r.waker ≡ some cx) × (L.contents r.queue ≡ []))
      alert_asleep h = h.alert

-- ===== src/Replay/Steps.antt =====
-- orchestration/neural/reinforcement/dqn.py: how many steps the agent takes.
use native.Mathlib.Nat.{mod-eq_of_lt, mod_self}
use qervan_ai.Common.{
  ℕ, ◌+◌, ◌%◌, ◌≤◌, ◌<◌, ◌≡◌, refl, sym, ap, subst, ◌∙◌, inl, inr, List, [], ◌∷◌, ok, err, length,
  ltb, arith, Bool-cases,
}
use qervan_ai.Replay.{type_error, Agent, step, step_all}

module _ {E P : Type 0} (update_every : ℕ) (priority : P) where
  -- A step before the round is full goes on with the next count.
  pub step_counts :
      (e : E) (agent : Agent E P)
      → agent.t_step + 1 < update_every
      → ((step update_every priority e agent).0 ≡ ok tt)
        × ((step update_every priority e agent).1.t_step ≡ agent.t_step + 1)
  unfolding step
  step_counts e agent l =
      let count : (agent.t_step + 1) % update_every ≡ agent.t_step + 1 = mod-eq_of_lt l in
      (ground (arith, count), ground (arith, count))

  pub step_full :
      (e : E) (agent : Agent E P)
      → agent.t_step + 1 ≡ update_every
      → (step update_every priority e agent).0 ≡ err type_error
  unfolding step
  step_full e agent l =
      let count : (agent.t_step + 1) % update_every ≡ 0 =
        ap (λ n. n % update_every) l ∙ mod_self update_every in
      ground (arith, count)

  step_all-next :
      (e : E) (es : List E) (agent : Agent E P)
      → (step update_every priority e agent).0 ≡ ok tt
      → (step_all update_every priority (e ∷ es) agent).0
        ≡ (step_all update_every priority es (step update_every priority e agent).1).0
  unfolding step_all
  step_all-next e es agent h = rw (step_all, h) refl

  step_all-stop :
      (e : E) (es : List E) (agent : Agent E P)
      → (step update_every priority e agent).0 ≡ err type_error
      → (step_all update_every priority (e ∷ es) agent).0 ≡ err type_error
  unfolding step_all
  step_all-stop e es agent h = rw (step_all, h) refl

  -- From a count below update_every: the steps of a training all return if they do not fill the round, and the training
  -- ends in TypeError (the buffer has no __len__) as soon as they do.
  pub step_all_counts :
      (es : List E) (agent : Agent E P)
      → agent.t_step < update_every
      → ((agent.t_step + length es < update_every)
          → (step_all update_every priority es agent).0 ≡ ok tt)
        × ((update_every ≤ agent.t_step + length es)
            → (step_all update_every priority es agent).0 ≡ err type_error)
  unfolding step_all
  step_all_counts [] agent l = ((λ m. refl), (λ m. absurd (omega (arith, l, m))))
  step_all_counts (e ∷ es) agent l = elim (Bool-cases (ltb (agent.t_step + 1) update_every)) [
    | inl before ↦
        let less : agent.t_step + 1 < update_every = ground (arith, before) in
        let (goes_on, counted) = step_counts e agent less in
        let next = (step update_every priority e agent).1 in
        let below : next.t_step < update_every = subst (λ n. n < update_every) (sym counted) less in
        let rest = step_all_counts es next below in
        (
          (λ m. step_all-next e es agent goes_on ∙ rest.0 (omega (arith, m, counted))),
          (λ m. step_all-next e es agent goes_on ∙ rest.1 (omega (arith, m, counted))),
        )
    | inr full ↦
        let reached : agent.t_step + 1 ≡ update_every = ground (arith, full, l) in
        (
          (λ m. absurd (omega (arith, m, reached))),
          (λ m. step_all-stop e es agent (step_full e agent reached)),
        )
  ]

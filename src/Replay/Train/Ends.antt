-- ===== src/Replay/Train/Ends.antt =====
-- orchestration/neural/reinforcement/dqn.py: how EnterpriseTrainer.train ends.
use qervan_ai.Common.{
  Bool, ℕ, zero, suc, ◌+◌, ◌<◌, ◌≤◌, ◌==◌, true, List, [], ◌∷◌, ◌++◌, none, some, Result, ok, err,
  ◌≡◌, ◌≢◌, refl, sym, ◌∙◌, Result-cases, Bool-cases, inl, inr, ltb, arith, ok-ne-err,
  if◌then◌else◌, ◌%◌,
}
use qervan_ai.Common.Real.{Real}
use qervan_ai.Replay.{AgentError, type_error, attribute_error}
use qervan_ai.Replay.Steps.{step_counts, step_full}
use qervan_ai.Replay.Train.{
  Environment, Random, AgentSettings, LoopSettings, Trainer, Experience, Checkpoint, checkpoint,
  act, turn, episode, episodes, train,
}

module _ {World Seed S F P : Type 0} (r : Real F) (rng : Random Seed F) (config : AgentSettings)
    (epsilon : F) (q_values : S → Result AgentError (List F)) (env : Environment World S F)
    (priority : P) where
  -- A turn that returns has counted one step, and has not filled the round.
  turn-ok :
      (state : S) (t : Trainer World Seed S F P) {v : S × F × Bool}
      → t.agent.t_step < config.update_every
      → (turn r rng config epsilon q_values env priority state t).0 ≡ ok v
      → ((turn r rng config epsilon q_values env priority state t).1.agent.t_step
          ≡ t.agent.t_step + 1)
        × (t.agent.t_step + 1 < config.update_every)
  unfolding turn
  turn-ok state t {v} below h =
      elim (Result-cases (act r rng config epsilon q_values true state t.seed)) [
        | inr (e, raised) ↦ absurd (ok-ne-err v e (sym h ∙ rw (raised, turn) refl))
        | inl (chosen, acted) ↦
            let given = env.advance t.world chosen.0 in
            let experience : Experience S F = (state, chosen.0, given.0.1, given.0.0, given.0.2) in
            elim (Bool-cases (ltb (t.agent.t_step + 1) config.update_every)) [
              | inl before ↦
                  let less : t.agent.t_step + 1 < config.update_every = ground (arith, before) in
                  (
                    rw (acted, turn)
                        ((step_counts config.update_every priority experience t.agent less).1),
                    less,
                  )
              | inr full ↦
                  let reached : t.agent.t_step + 1 ≡ config.update_every =
                    ground (arith, full, below) in
                  let stopped = step_full config.update_every priority experience t.agent reached in
                  absurd (ok-ne-err v type_error (sym h ∙ rw (acted, stopped, turn) refl))
            ]
      ]

  episode-ok :
      (steps : ℕ) (state : S) (score : F) (t : Trainer World Seed S F P) {total : F}
      → t.agent.t_step < config.update_every
      → (episode r rng config epsilon q_values env priority steps state score t).0 ≡ ok total
      → (t.agent.t_step
          ≤ (episode r rng config epsilon q_values env priority steps state score t).1.agent.t_step)
        × ((episode r rng config epsilon q_values env priority steps state score t).1.agent.t_step
            < config.update_every)
        × ((0 < steps)
            → t.agent.t_step
              < (episode r rng config epsilon q_values env priority steps state score
                  t).1.agent.t_step)
  unfolding episode
  episode-ok zero state score t below h =
      (omega arith, below, (λ some_step. absurd (omega (arith, some_step))))
  episode-ok (suc steps) state score t {total} below h =
      let t' = (turn r rng config epsilon q_values env priority state t).1 in
      elim (Result-cases (turn r rng config epsilon q_values env priority state t).0) [
        | inr (e, raised) ↦ absurd (ok-ne-err total e (sym h ∙ rw (raised, episode) refl))
        | inl (v, returned) ↦
            let (counted, less) = turn-ok state t below returned in
            let below' : t'.agent.t_step < config.update_every = omega (arith, counted, less) in
            elim (Bool-cases v.2) [
              | inl done ↦
                  rw (returned, done, episode)
                    (omega (arith, counted), below', (λ some_step. omega (arith, counted)))
              | inr goes_on ↦
                  let (more, least, ignored) =
                    episode-ok steps v.0 (r.add score v.1) t' below'
                      (sym (rw (returned, goes_on, episode) refl) ∙ h) in
                  rw (returned, goes_on, episode)
                    (
                      omega (arith, counted, more),
                      least,
                      (λ some_step. omega (arith, counted, more)),
                    )
            ]
      ]

  -- Every episode counts a step at least, so there are fewer of them than the round has steps.
  episodes-ok :
      (max_steps left i_episode : ℕ) (scores : List F) (saved : List Checkpoint)
      (t : Trainer World Seed S F P) {all : List F}
      → 0 < max_steps
      → t.agent.t_step < config.update_every
      → (episodes r rng config epsilon q_values env priority max_steps left i_episode scores saved
          t).0
        ≡ ok all
      → t.agent.t_step + left < config.update_every
  unfolding episodes
  episodes-ok max_steps zero i_episode scores saved t some_step below h = omega (arith, below)
  episodes-ok max_steps (suc left) i_episode scores saved t {all} some_step below h =
      let start = env.reset t.world in
      let t0 : Trainer World Seed S F P = record t { world = start.1 } in
      let played =
        episode r rng config epsilon q_values env priority max_steps start.0 r.zero_r t0 in
      elim (Result-cases played.0) [
        | inr (e, raised) ↦ absurd (ok-ne-err all e (sym h ∙ rw (raised, episodes) refl))
        | inl (score, returned) ↦
            let (at_least, least, strictly) =
              episode-ok max_steps start.0 r.zero_r t0 below returned in
            let more = strictly some_step in
            let rest =
              episodes-ok max_steps left (suc i_episode) (scores ++ score ∷ [])
                (if i_episode % 100 == 0 then saved ++ checkpoint i_episode ∷ [] else saved)
                played.1 some_step least (sym (rw (returned, episodes) refl) ∙ h) in
            omega (arith, more, rest)
      ]

  -- Without settings a training ends in AttributeError. With them, if an episode may take a step and there are at
  -- least as many episodes as a round has steps, a training from a count below the round never returns scores,
  -- in any environment.
  pub train-raises :
      (loops : LoopSettings) (t : Trainer World Seed S F P) (scores : List F)
      → 0 < loops.max_steps
      → config.update_every ≤ loops.num_episodes
      → t.agent.t_step < config.update_every
      → ((train r rng config epsilon q_values env priority none t).0 ≡ err attribute_error)
        × ((train r rng config epsilon q_values env priority (some loops) t).0 ≢ ok scores)
  unfolding train
  train-raises loops t scores some_step many below =
      let played =
        episodes r rng config epsilon q_values env priority loops.max_steps loops.num_episodes 1 []
          [] t in
      (
        refl,
        (λ h. elim (Result-cases played.0) [
          | inr (e, raised) ↦ ok-ne-err scores e (sym h ∙ rw (raised, train) refl)
          | inl (all, returned) ↦
              let few =
                episodes-ok loops.max_steps loops.num_episodes 1 [] [] t some_step below returned in
              omega (arith, few, many)
        ]),
      )

-- ===== src/Replay/Train/Blind.antt =====
-- orchestration/neural/reinforcement/dqn.py: what EnterpriseTrainer.evaluate depends on.
use qervan_ai.Common.{
  ℕ, zero, suc, List, [], ◌∷◌, ◌++◌, ok, ◌≡◌, refl, Option-cases, Result-cases, Bool-cases, inl,
  inr,
}
use qervan_ai.Common.Real.{Real}
use qervan_ai.Replay.Train.{Environment, Random, AgentSettings, act, evaluate_episode, evaluate}

-- Two agents, with networks that return.
module _ {World Seed S F : Type 0} (r : Real F) (env : Environment World S F) (rng : Random Seed F)
    (config : AgentSettings) (epsilon epsilon' : F) (network network' : S → List F) where
  evaluate_episode-network :
      (fuel : ℕ) (state : S) (score : F) (world : World) (seed : Seed)
      → evaluate_episode r rng config epsilon (λ s. ok (network s)) env fuel state score world seed
        ≡ evaluate_episode r rng config epsilon'
            (λ s. ok (network' s))
            env
            fuel
            state
            score
            world
            seed
  unfolding evaluate_episode act
  evaluate_episode-network zero state score world seed = refl
  evaluate_episode-network (suc fuel) state score world seed =
      let chosen = rng.choice config.action_dim seed in
      let result = env.advance world chosen.0 in
      elim (Bool-cases result.0.2) [
        | inl done ↦ rw (done, evaluate_episode) refl
        | inr goes_on ↦
            rw (goes_on, evaluate_episode)
              (evaluate_episode-network fuel result.0.0 (r.add score result.0.1) result.1 chosen.1)
      ]

  -- An evaluation plays the same episodes and gives the same scores for every two networks and values of epsilon,
  -- whenever the networks return: what was learnt has no part in it.
  pub evaluate-network :
      (fuel num_episodes : ℕ) (scores : List F) (world : World) (seed : Seed)
      → evaluate r rng config epsilon (λ s. ok (network s)) env fuel num_episodes scores world seed
        ≡ evaluate r rng config epsilon'
            (λ s. ok (network' s))
            env
            fuel
            num_episodes
            scores
            world
            seed
  unfolding evaluate
  evaluate-network fuel zero scores world seed = refl
  evaluate-network fuel (suc num_episodes) scores world seed =
      let start = env.reset world in
      let same = evaluate_episode-network fuel start.0 r.zero_r start.1 seed in
      let other =
        evaluate_episode r rng config epsilon' (λ s. ok (network' s)) env fuel start.0 r.zero_r
          start.1 seed in
      elim (Option-cases other) [
        | inl ended ↦ rw (same, ended, evaluate) refl
        | inr (outcome, played) ↦ elim (Result-cases outcome) [
          | inr (e, raised) ↦ rw (same, played, raised, evaluate) refl
          | inl (next, returned) ↦
              rw (same, played, returned, evaluate)
                (evaluate-network fuel num_episodes (scores ++ next.0 ∷ []) next.1 next.2)
        ]
      ]

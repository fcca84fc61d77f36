-- ===== src/Replay/Train.antt =====
-- orchestration/neural/reinforcement/dqn.py: EnterpriseDQNAgent.act, and the loops of EnterpriseTrainer.
-- The networks are not modelled: `q_values` is what the local one gives for a state, flattened, or what its
-- forward pass raises. The environment and the random numbers are parameters.
pub mod Ends
pub mod Blind
use qervan_ai.Common.{
  ℕ, zero, suc, ◌+◌, ◌%◌, ◌==◌, Bool, true, false, List, [], ◌∷◌, ◌++◌, Option, none, some, Result,
  ok, err, if◌then◌else◌,
}
use qervan_ai.Common.Real.{Real}
use qervan_ai.Replay.{AgentError, Agent, attribute_error, step, append_max}

pub record Environment (World S F : Type 0) : Type 0 where
  pub reset : World → S × World
  pub advance : World → (action : ℕ) → (S × F × Bool) × World

-- random.random(), and random.choice among the numbers below one
pub record Random (Seed F : Type 0) : Type 0 where
  pub random : Seed → F × Seed
  pub choice : ℕ → Seed → ℕ × Seed

-- What the agent reads of the configuration.
pub record AgentSettings : Type 0 where
  pub update_every : ℕ
  pub action_dim : ℕ

-- What the trainer reads of the configuration.
pub record LoopSettings : Type 0 where
  pub num_episodes : ℕ
  pub max_steps : ℕ

abbrev pub Experience : Type 0 → Type 0 → Type 0
Experience S F = S × ℕ × F × S × Bool

-- The trainer's environment, the random numbers to come, and the agent.
pub record Trainer (World Seed S F P : Type 0) : Type 0 where
  pub world : World
  pub seed : Seed
  pub agent : Agent (Experience S F) P

pub data Checkpoint : Type 0 where
  checkpoint : (i_episode : ℕ) → Checkpoint
  final_model : Checkpoint

-- np.argmax: the first of the greatest values.
module _ {F : Type 0} (r : Real F) where
  abbrev pub argmax_from : (i best : ℕ) → F → List F → ℕ
  argmax_from i best greatest [] = best
  argmax_from i best greatest (x ∷ xs) =
      if r.lt greatest x then argmax_from (suc i) i x xs else argmax_from (suc i) best greatest xs

  abbrev pub argmax : List F → ℕ
  argmax [] = 0
  argmax (x ∷ xs) = argmax_from 1 0 x xs

module _ {Seed S F : Type 0} (r : Real F) (rng : Random Seed F) (config : AgentSettings)
    (epsilon : F) (q_values : S → Result AgentError (List F)) where
  -- With the number drawn, and the seed after it.
  abbrev pub greedy_or_random : List F → F × Seed → Result AgentError (ℕ × Seed)
  greedy_or_random action_values drawn =
      if r.lt epsilon drawn.0
      then ok (argmax r action_values, drawn.1)
      else ok (rng.choice config.action_dim drawn.1)

  unfoldable pub act : Bool → S → Seed → Result AgentError (ℕ × Seed)
  act training state seed = elim (q_values state) [
    | err e ↦ err e
    | ok action_values ↦
        if training
        then greedy_or_random action_values (rng.random seed)
        else ok (rng.choice config.action_dim seed)
  ]

  module _ {World : Type 0} (env : Environment World S F) where
    -- The inner loop of evaluate, which has no bound: `none` where the fuel ends first.
    unfoldable pub evaluate_episode :
        (fuel : ℕ) → S → (score : F) → World → Seed → Option (Result AgentError (F × World × Seed))
    unfolding act
    evaluate_episode zero state score world seed = none
    evaluate_episode (suc fuel) state score world seed = elim (act false state seed) [
      | err e ↦ some (err e)
      | ok (action, seed') ↦
          let ((next_state, reward, done), world') = env.advance world action in
          elim done [
            | true ↦ some (ok (r.add score reward, world', seed'))
            | false ↦ evaluate_episode fuel next_state (r.add score reward) world' seed'
          ]
    ]

    -- evaluate: the scores of the episodes.
    unfoldable pub evaluate :
        (fuel : ℕ)
        → (num_episodes : ℕ) → (scores : List F) → World
        → Seed
        → Option (Result AgentError (List F))
    unfolding evaluate_episode
    evaluate fuel zero scores world seed = some (ok scores)
    evaluate fuel (suc num_episodes) scores world seed =
        let (state, world') = env.reset world in
        elim (evaluate_episode fuel state r.zero_r world' seed) [
          | none ↦ none
          | some (err e) ↦ some (err e)
          | some (ok (score, world'', seed'')) ↦
              evaluate fuel num_episodes (scores ++ score ∷ []) world'' seed''
        ]

    module _ {P : Type 0} (priority : P) where
      -- One turn of the inner loop of train: the state, the reward and the end that the environment gives.
      unfoldable pub turn :
          S → Trainer World Seed S F P → Result AgentError (S × F × Bool) × Trainer World Seed S F P
      unfolding act step
      turn state t = elim (act true state t.seed) [
        | err e ↦ (err e, t)
        | ok (action, seed) ↦
            let ((next_state, reward, done), world) = env.advance t.world action in
            let (outcome, agent) =
              step config.update_every priority (state, action, reward, next_state, done) t.agent in
            (
              elim outcome [ err e ↦ err e | ok _ ↦ ok (next_state, reward, done) ],
              record { world = world; seed = seed; agent = agent },
            )
      ]

      -- The inner loop of train, with the steps that are left.
      unfoldable pub episode :
          (steps : ℕ)
          → S
          → (score : F) → Trainer World Seed S F P
          → Result AgentError F × Trainer World Seed S F P
      unfolding turn
      episode zero state score t = (ok score, t)
      episode (suc steps) state score t =
          let (outcome, t') = turn state t in
          elim outcome [
            | err e ↦ (err e, t')
            | ok (next_state, reward, done) ↦ elim done [
              | true ↦ (ok (r.add score reward), t')
              | false ↦ episode steps next_state (r.add score reward) t'
            ]
          ]

      -- The outer loop, with the episodes that are left, the number of the next one, the scores and the checkpoints.
      unfoldable pub episodes :
          (max_steps left i_episode : ℕ)
          → List F
          → List Checkpoint
          → Trainer World Seed S F P
          → Result AgentError (List F) × List Checkpoint × Trainer World Seed S F P
      unfolding episode
      episodes max_steps zero i_episode scores saved t = (ok scores, saved, t)
      episodes max_steps (suc left) i_episode scores saved t =
          let (state, world) = env.reset t.world in
          let (outcome, t') = episode max_steps state r.zero_r (record t { world = world }) in
          elim outcome [
            | err e ↦ (err e, saved, t')
            | ok score ↦
                episodes max_steps left (suc i_episode) (scores ++ score ∷ [])
                  (if i_episode % 100 == 0 then saved ++ checkpoint i_episode ∷ [] else saved) t'
          ]

      -- train: the scores, and the checkpoints that are saved. The settings are `none` where the object has no
      -- attribute `training`.
      unfoldable pub train :
          Option LoopSettings
          → Trainer World Seed S F P
          → Result AgentError (List F) × List Checkpoint × Trainer World Seed S F P
      unfolding episodes
      train none t = (err attribute_error, [], t)
      train (some loops) t =
          let (outcome, saved, t') = episodes loops.max_steps loops.num_episodes 1 [] [] t in
          elim outcome [
            | err e ↦ (err e, saved, t')
            | ok scores ↦ (ok scores, saved ++ final_model ∷ [], t')
          ]

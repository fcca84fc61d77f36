-- ===== src/Replay/Examples.antt =====
-- A buffer of two experiences, and trainings and evaluations in an environment that counts.
use qervan_ai.Common.{
  refl, ◌≢◌, some, leb, suc, none, true, Result, ℕ, ◌≡◌, List, [], ◌∷◌, ok, err, length, min, arith,
}
use qervan_ai.Replay.{
  drop, append_max, add, AgentError, attribute_error, step, Buffer, type_error, new_buffer,
}
use qervan_ai.Replay.Window.{last_n, add_all, add_all-last_n}
use qervan_ai.Replay.Train.Ends.{train-raises}
use qervan_ai.Replay.Train.Blind.{evaluate-network}
use qervan_ai.Common.Real.{whole}
use qervan_ai.Replay.Train.{
  Environment, Random, AgentSettings, LoopSettings, Trainer, act, turn, episode, episodes, train,
  evaluate,
}

abbrev played : List ℕ
played = 4 ∷ 5 ∷ 6 ∷ []

abbrev filled : Buffer ℕ ℕ
filled = add_all 1 played (new_buffer 2)

add_all-last_n_example :
    (filled.buffer ≡ last_n 2 played)
    × (length filled.buffer ≡ min 2 (length played))
    × (length filled.priorities ≡ length filled.buffer)
add_all-last_n_example = add_all-last_n 2 1 played

-- An environment that counts, with a reward of one, and random numbers that repeat.
abbrev counting : Environment ℕ ℕ ℕ
counting = record {
  reset = λ world. (0, world);
  advance = λ world action. ((suc world, 1, leb 5 world), suc world);
}

abbrev repeating : Random ℕ ℕ
repeating = record { random = λ seed. (seed, suc seed); choice = λ n seed. (0, suc seed) }

abbrev settings : AgentSettings
settings = record { update_every = 4; action_dim = 4 }

abbrev loops : LoopSettings
loops = record { num_episodes = 2000; max_steps = 1000 }

abbrev fresh_trainer : Trainer ℕ ℕ ℕ ℕ ℕ
fresh_trainer = record {
  world = 0;
  seed = 0;
  agent = record { memory = record { buffer_size = 10; buffer = []; priorities = [] }; t_step = 0 };
}

abbrev constant : ℕ → Result AgentError (List ℕ)
constant state = ok (1 ∷ 2 ∷ [])

-- One episode of three steps returns; the fourth step does not.
three_steps :
    (train whole repeating settings 1 constant counting 1
      (some (record { num_episodes = 1; max_steps = 3 }))
      fresh_trainer).0
    ≡ ok (3 ∷ [])
unfolding train episodes episode turn act step add append_max drop
three_steps = refl

four_steps :
    (train whole repeating settings 1 constant counting 1
      (some (record { num_episodes = 1; max_steps = 4 }))
      fresh_trainer).0
    ≡ err type_error
unfolding train episodes episode turn act step add append_max drop
four_steps = refl

-- The greatest of all atoms of all actions is looked for: of two actions with three atoms, number 5.
abbrev six_atoms : ℕ → Result AgentError (List ℕ)
six_atoms state = ok (1 ∷ 0 ∷ 0 ∷ 0 ∷ 0 ∷ 7 ∷ [])

out_of_range : act whole repeating settings 1 six_atoms true 0 2 ≡ ok (5, 3)
unfolding act
out_of_range = refl

train-raises_example :
    ((train whole repeating settings 1 constant counting 1 none fresh_trainer).0
      ≡ err attribute_error)
    × ((train whole repeating settings 1 constant counting 1 (some loops) fresh_trainer).0 ≢ ok [])
train-raises_example =
    train-raises whole repeating settings 1 constant counting 1 loops fresh_trainer [] (omega arith)
      (omega arith) (omega arith)

evaluate-network_example :
    evaluate whole repeating settings 1 (λ state. ok (1 ∷ [])) counting 10 2 [] 0 0
    ≡ evaluate whole repeating settings 0 (λ state. ok (1 ∷ 9 ∷ [])) counting 10 2 [] 0 0
evaluate-network_example =
    evaluate-network whole counting repeating settings 1 0 (λ state. 1 ∷ []) (λ state. 1 ∷ 9 ∷ [])
      10 2 [] 0 0

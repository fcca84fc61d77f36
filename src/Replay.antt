-- ===== src/Replay.antt =====
-- orchestration/neural/reinforcement/dqn.py: PrioritizedReplayBuffer and EnterpriseDQNAgent.step.
-- An experience and a priority are values of any types; the networks are not modelled.
pub mod Window
pub mod Steps
pub mod Train
mod Examples
use qervan_ai.Common.{
  ℕ, zero, suc, ◌+◌, ◌-◌, ◌%◌, Bool, true, false, List, [], ◌∷◌, ◌++◌, Result, ok, err, length, ltb,
  set, ◌==◌, if◌then◌else◌,
}

pub data AgentError : Type 0 where
  type_error index_error attribute_error : AgentError

module _ {A : Type 0} where
  unfoldable pub drop : ℕ → List A → List A
  drop zero xs = xs
  drop (suc n) [] = []
  drop (suc n) (x ∷ xs) = drop n xs

  -- append to a deque with this maxlen: a full one loses its first value.
  unfoldable pub append_max : ℕ → List A → A → List A
  unfolding drop
  append_max n xs x = if ltb (length xs) n then xs ++ x ∷ [] else drop 1 (xs ++ x ∷ [])

pub record Buffer (E P : Type 0) : Type 0 where
  pub buffer_size : ℕ
  pub buffer : List E
  pub priorities : List P

pub record Agent (E P : Type 0) : Type 0 where
  pub memory : Buffer E P
  pub t_step : ℕ

module _ {E P : Type 0} where
  -- PrioritizedReplayBuffer.__init__
  unfoldable pub new_buffer : ℕ → Buffer E P
  new_buffer size = record { buffer_size = size; buffer = []; priorities = [] }

  -- `priority` is _max_priority ** alpha, which never changes.
  unfoldable pub add : P → E → Buffer E P → Buffer E P
  unfolding append_max
  add priority experience b = record b {
    buffer = append_max b.buffer_size b.buffer experience;
    priorities = append_max b.buffer_size b.priorities priority;
  }

  -- zip(indices, errors), with the priority (abs(error) + 1e-8) ** alpha of each error.
  unfoldable pub update_priorities : List (ℕ × P) → Buffer E P → Result AgentError (Buffer E P)
  update_priorities [] b = ok b
  update_priorities ((i, p) ∷ updates) b =
      let rest = update_priorities updates (record b { priorities = set b.priorities i p }) in
      if ltb i (length b.priorities) then rest else err index_error

  -- step: `len(self.memory)` raises TypeError, since the buffer has no __len__.
  unfoldable pub step : ℕ → P → E → Agent E P → Result AgentError (Unit {0}) × Agent E P
  unfolding add
  step update_every priority experience agent =
      let agent' : Agent E P = record {
        memory = add priority experience agent.memory;
        t_step = (agent.t_step + 1) % update_every;
      } in
      if agent'.t_step == 0 then (err type_error, agent') else (ok tt, agent')

  -- The steps of a training, until one raises.
  unfoldable pub step_all : ℕ → P → List E → Agent E P → Result AgentError (Unit {0}) × Agent E P
  unfolding step
  step_all update_every priority [] agent = (ok tt, agent)
  step_all update_every priority (experience ∷ experiences) agent =
      let (result, agent') = step update_every priority experience agent in
      let rest = step_all update_every priority experiences agent' in
      elim result [ ok u ↦ rest | err e ↦ (err e, agent') ]

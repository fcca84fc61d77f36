-- ===== src/Auction.antt =====
-- platform/market_mechanism/auction_engine/combinatorial.py: the combinatorial auction.
-- A value is of any type `V`, with the operations of `Floats`. The solver of ortools is the parameter
-- `Solver`; a package is a frozenset as a list of its items.
pub mod Bids
pub mod Winners
pub mod Exhaustive
mod Examples
use qervan_ai.Common.{
  ℕ, zero, suc, ◌+◌, Bool, true, false, not, ◌&&◌, ◌≡◌, ◌≤◌, String, List, [], ◌∷◌, ◌++◌, map,
  Option, none, some, Result, ok, err, ◌>>=◌, Dict, insert, contains, length, str_eq, All,
  if◌then◌else◌,
}

pub data AuctionError : Type 0 where
  value_error : (message : String) → AuctionError
  runtime_error : (message : String) → AuctionError
  solver_error : AuctionError

abbrev pub Package : Type 0
Package = List ℕ

-- The operations on Python's floats that the file uses.
pub record Floats (V : Type 0) : Type 0 where
  pub zero_v : V
  pub at_most : V → V → Bool
  pub less : V → V → Bool
  pub minus : V → V → V

pub record Bid (V : Type 0) : Type 0 where
  pub bidder_id : String
  pub items : Package
  pub value : V
  pub nonce : List ℕ

-- Bid.__post_init__
unfoldable pub new_bid : {V : Type 0} → Floats V → Bid V → Result AuctionError (Bid V)
new_bid f bid =
    if f.at_most bid.value f.zero_v then err (value_error "Bid values must be positive") else ok bid

-- The variables are those of the bids, in order. A row has the variables with the coefficient 1 in
-- the constraint of an item, the sum of which is between 0 and 1.
pub record Model (V : Type 0) : Type 0 where
  pub rows : List (List Bool)
  pub objective : List V
  pub names : List String

pub record Solution (V : Type 0) : Type 0 where
  pub solution_values : List Bool
  pub objective_value : V

-- Solve() with the solution where the status is OPTIMAL; LookupVariable on a clone; the objective of Solve() on a clone
-- after SetBounds(0, 0) on some variables, `none` where the status is another, or what Clone() raises (pywraplp
-- documents no such call); Constraint(item).dual_value(), `none` where it raises (pywraplp's
-- Constraint takes bounds).
pub record Solver (V : Type 0) : Type 0 where
  pub solve : Model V → Option (Solution V)
  pub lookup_variable : List String → String → ℕ
  pub solve_fixed : Model V → List ℕ → Result AuctionError (Option V)
  pub dual_value : Model V → ℕ → Option V

-- The sum of a row under an assignment.
unfoldable pub row_sum : List Bool → List Bool → ℕ
row_sum [] xs = 0
row_sum (r ∷ rs) [] = 0
row_sum (r ∷ rs) (x ∷ xs) = let rest = row_sum rs xs in if r && x then suc rest else rest

pub record IsFeasible {V : Type 0} (m : Model V) (xs : List Bool) : Type 0 where
  pub one_each : length xs ≡ length m.objective
  pub within : All (λ row. row_sum row xs ≤ 1) m.rows

-- What the code relies on: a solution with the status OPTIMAL is feasible.
pub record IsSound {V : Type 0} (s : Solver V) : Type 0 where
  pub feasible :
      (m : Model V) (x : Solution V) → s.solve m ≡ some x → IsFeasible m x.solution_values

-- hash((bid.package, bid.bidder_id, bid.nonce))
abbrev pub Hash : Type 0
Hash = Package → String → List ℕ → ℕ

abbrev pub bid_hash : {V : Type 0} → Hash → Bid V → ℕ
bid_hash hash bid = hash bid.items bid.bidder_id bid.nonce

-- The loop of _validate_bids over the bids with the set `seen`.
unfoldable pub validate_loop :
    {V : Type 0} → Hash → List ℕ → List (Bid V) → Result AuctionError (Unit {0})
validate_loop hash seen [] = ok tt
validate_loop hash seen (bid ∷ bids) =
    let rest = validate_loop hash (bid_hash hash bid ∷ seen) bids in
    if contains seen (bid_hash hash bid) then err (value_error "Duplicate bid detected") else rest

unfoldable pub validate_bids :
    {V : Type 0} → Hash → List (Bid V) → Result AuctionError (List (Bid V))
unfolding validate_loop
validate_bids hash bids = validate_loop hash [] bids >>= λ _. ok bids

unfoldable pub setup_optimization_model : {V : Type 0} → List ℕ → List (Bid V) → Model V
setup_optimization_model {V} items bids = record {
  rows = map (λ item. map (λ (bid : Bid V). contains bid.items item) bids) items;
  objective = map (λ (bid : Bid V). bid.value) bids;
  names = map (λ (bid : Bid V). bid.bidder_id) bids;
}

abbrev pub subset : Package → Package → Bool
subset [] b = true
subset (x ∷ a) b = contains b x && subset a b

-- winners[package] = bidder_id
unfoldable pub insert_winner : List (Package × String) → Package → String → List (Package × String)
insert_winner [] goods bidder = (goods, bidder) ∷ []
insert_winner ((p, b) ∷ winners) goods bidder =
    if subset p goods && subset goods p
    then (p, bidder) ∷ winners
    else (p, b) ∷ insert_winner winners goods bidder

pub record AllocationResult (V : Type 0) : Type 0 where
  pub winners : List (Package × String)
  pub payments : Dict V
  pub social_welfare : V
  pub shadow_prices : List (ℕ × V)

module _ {V : Type 0} (f : Floats V) (s : Solver V) where
  -- for item in self.items: Constraint(item).dual_value()
  unfoldable pub get_shadow_prices : Model V → List ℕ → Result AuctionError (List (ℕ × V))
  get_shadow_prices m [] = ok []
  get_shadow_prices m (item ∷ items) = elim (s.dual_value m item) [
    | none ↦ err solver_error
    | some price ↦ get_shadow_prices m items >>= λ prices. ok ((item, price) ∷ prices)
  ]

  -- The variables that _compute_exclusion_welfare fixes at 0, found by their names.
  unfoldable pub excluded_variables : List String → List (Bid V) → String → List ℕ
  excluded_variables names [] bidder = []
  excluded_variables names (bid ∷ bids) bidder =
      let rest = excluded_variables names bids bidder in
      if str_eq bid.bidder_id bidder then s.lookup_variable names bid.bidder_id ∷ rest else rest

  unfoldable pub compute_exclusion_welfare : Model V → List (Bid V) → String → Result AuctionError V
  unfolding excluded_variables
  compute_exclusion_welfare m bids bidder =
      s.solve_fixed m (excluded_variables m.names bids bidder) >>= λ solved.
      ok (elim solved [ none ↦ f.zero_v | some welfare ↦ welfare ])

  -- max(social_welfare - (exclusion_value - bid.value), 0)
  unfoldable pub payment_of : V → V → V → V
  payment_of social_welfare exclusion_value value =
      let payment = f.minus social_welfare (f.minus exclusion_value value) in
      if f.less payment f.zero_v then f.zero_v else payment

  -- The loop over the bids with their variables' solution values, on `winners` and `payments`.
  unfoldable pub settle :
      (String → Result AuctionError V)
      → V
      → List (Bid V)
      → List Bool
      → List (Package × String) × Dict V
      → Result AuctionError (List (Package × String) × Dict V)
  unfolding payment_of insert insert_winner
  settle exclusion welfare [] xs acc = ok acc
  settle exclusion welfare (bid ∷ bids) [] acc = ok acc
  settle exclusion welfare (bid ∷ bids) (false ∷ xs) acc = settle exclusion welfare bids xs acc
  settle exclusion welfare (bid ∷ bids) (true ∷ xs) (winners, payments) =
      exclusion bid.bidder_id >>= λ value. settle exclusion welfare bids xs (
        insert_winner winners bid.items bid.bidder_id,
        insert payments bid.bidder_id (payment_of welfare value bid.value),
      )

  -- compute_vcg_payments once the allocation and the prices are there.
  unfoldable pub allocate :
      Model V → List (Bid V) → Solution V → List (ℕ × V) → Result AuctionError (AllocationResult V)
  unfolding settle compute_exclusion_welfare
  allocate m bids x prices =
      let settled : Result AuctionError (List (Package × String) × Dict V) =
        settle (compute_exclusion_welfare m bids) x.objective_value bids x.solution_values
          ([], []) in
      settled >>= λ acc. ok (record {
        winners = acc.0;
        payments = acc.1;
        social_welfare = x.objective_value;
        shadow_prices = prices;
      })

  -- CombinatorialAuctionVCG(items, bids).compute_vcg_payments()
  unfoldable pub compute_vcg_payments :
      List ℕ → List (Bid V) → Result AuctionError (AllocationResult V)
  unfolding allocate get_shadow_prices setup_optimization_model
  compute_vcg_payments items bids =
      let m = setup_optimization_model items bids in
      elim (s.solve m) [
        | none ↦ err (runtime_error "Primary allocation optimization failed")
        | some x ↦ get_shadow_prices m items >>= λ prices. allocate m bids x prices
      ]

  unfoldable pub run_auction :
      Hash → List ℕ → List (Bid V) → Result AuctionError (AllocationResult V)
  unfolding validate_bids compute_vcg_payments
  run_auction hash items bids =
      validate_bids hash bids >>= λ valid. compute_vcg_payments items valid

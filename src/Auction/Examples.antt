-- ===== src/Auction/Examples.antt =====
-- An auction of four items, settled by exhaustion, and the theorems at these values.
use qervan_ai.Auction.Bids.{AreDistinct, validate_bids_iff}
use qervan_ai.Auction.{validate_bids}
use qervan_ai.Common.{◌↔◌}
use qervan_ai.Common.{
  not, ◌&&◌, contains, arith, false, ℕ, ◌+◌, none, err, true, false, ◌≡◌, refl, List, [], ◌∷◌, some,
  ok, insert, Memᴰ, length,
}
use qervan_ai.Common.Int.{ℤ, ltb_ℤ, pos, ◌+ℤ◌, ◌-ℤ◌}
use qervan_ai.Auction.{
  settle, payment_of, get_shadow_prices, excluded_variables, allocate, Solver, solver_error, Bid,
  Floats, Hash, Solution, setup_optimization_model, compute_exclusion_welfare, compute_vcg_payments,
  AllocationResult, row_sum, insert_winner,
}
use qervan_ai.Auction.Winners.{winners_disjoint}
use qervan_ai.Auction.Exhaustive.{exhaustive, exhaustive-IsSound}

abbrev items : List ℕ
items = 1 ∷ 2 ∷ 3 ∷ 4 ∷ []

abbrev first : Bid ℤ
first = record { bidder_id = "bidder1"; items = 1 ∷ 2 ∷ []; value = pos 500; nonce = 1 ∷ [] }

abbrev second : Bid ℤ
second = record { bidder_id = "bidder2"; items = 3 ∷ 4 ∷ []; value = pos 800; nonce = 2 ∷ [] }

abbrev third : Bid ℤ
third = record {
  bidder_id = "bidder3";
  items = 1 ∷ 2 ∷ 3 ∷ 4 ∷ [];
  value = pos 1200;
  nonce = 3 ∷ [];
}

abbrev bids : List (Bid ℤ)
bids = first ∷ second ∷ third ∷ []

abbrev outcome : AllocationResult ℤ
outcome = record {
  winners = (1 ∷ 2 ∷ [], "bidder1") ∷ (3 ∷ 4 ∷ [], "bidder2") ∷ [];
  payments = ("bidder1", pos 600) ∷ ("bidder2", pos 900) ∷ [];
  social_welfare = pos 1300;
  shadow_prices = (1, pos 0) ∷ (2, pos 0) ∷ (3, pos 0) ∷ (4, pos 0) ∷ [];
}

abbrev integers : Floats ℤ
integers = record {
  zero_v = pos 0;
  at_most = λ a b. not (ltb_ℤ b a);
  less = ltb_ℤ;
  minus = λ a b. a -ℤ b;
}

-- With a solver that can be cloned and has prices, the bids 500 and 800 win against 1200, and are charged 600 and 900.
settled : compute_vcg_payments integers exhaustive items bids ≡ ok outcome
unfolding compute_vcg_payments settle insert insert_winner payment_of get_shadow_prices
    compute_exclusion_welfare excluded_variables setup_optimization_model allocate row_sum ◌+ℤ◌ ◌-ℤ◌
settled = refl

abbrev allocation : Solution ℤ
allocation = record { solution_values = true ∷ true ∷ false ∷ []; objective_value = pos 1300 }

allocated : exhaustive.solve (setup_optimization_model items bids) ≡ some allocation
unfolding setup_optimization_model row_sum ◌+ℤ◌
allocated = refl

winners_disjoint_example : (contains first.items 2 && contains second.items 2) ≡ false
winners_disjoint_example =
    winners_disjoint exhaustive items bids allocation 2 0 1 first second exhaustive-IsSound
      allocated (Memᴰ.tail (Memᴰ.head refl)) (record { listed = refl; chosen = refl })
      (record { listed = refl; chosen = refl }) (λ e. omega (arith, e))

abbrev toy_hash : Hash
toy_hash goods bidder nonce = length goods + length nonce

-- pywraplp as it is documented: no Clone(), and Constraint(item) gives no price.
abbrev documented : Solver ℤ
documented = record exhaustive {
  solve_fixed = λ m zeros. err solver_error;
  dual_value = λ m item. none;
}

no_prices : compute_vcg_payments integers documented items bids ≡ err solver_error
unfolding compute_vcg_payments get_shadow_prices setup_optimization_model row_sum ◌+ℤ◌
no_prices = refl

validate_bids_iff_example :
    (validate_bids toy_hash (first ∷ third ∷ []) ≡ ok (first ∷ third ∷ []))
    ↔ AreDistinct toy_hash (first ∷ third ∷ [])
validate_bids_iff_example = validate_bids_iff toy_hash (first ∷ third ∷ [])

-- ===== src/Planner/Evaluate/Require.antt =====
-- What a round of `_evaluate_option` adds to the required resources.
use qervan_ai.Common.{
  ◌≡◌, ◌∙◌, ◌⊎◌, inl, inr, String, [], ◌∷◌, some, ok, Dict, lookup, lookup_or, insert,
  lookup-insert, lookup_or-insert, if◌then◌else◌, arith, str_eq, eq_iff,
}
use qervan_ai.Common.Int.{ℤ, pos, ◌+ℤ◌, ◌≤ℤ◌, ltb_ℤ→le, +ℤ_assoc, +ℤ-zero}
use qervan_ai.Planner.Evaluate.{require}

-- How much of a resource a dictionary of requirements asks for.
abbrev pub asked : Dict ℤ → String → ℤ
asked [] res = pos 0
asked ((k, amount) ∷ items) res =
    let rest = asked items res in if str_eq k res then amount +ℤ rest else rest

-- Every entry that is new since `before` is within the pool.
abbrev pub Within : Dict ℤ → Dict ℤ → Dict ℤ → Type 0
Within pool before after =
    (res : String) (a : ℤ)
    → lookup after res ≡ some a
    → (lookup before res ≡ some a) ⊎ (a ≤ℤ lookup_or pool res (pos 0))

pub Within-trans : (pool a b c : Dict ℤ) → Within pool a b → Within pool b c → Within pool a c
Within-trans pool a b c h k res x e = elim (k res x e) [
  | inl old ↦ h res x old
  | inr fits ↦ inr fits
]

abbrev pub Grows : Dict ℤ → Dict ℤ → (String → ℤ) → Type 0
Grows before after by =
    (res : String) → lookup_or after res (pos 0) ≡ lookup_or before res (pos 0) +ℤ by res

pub require-cons :
    (pool items required : Dict ℤ) (k : String) (amount : ℤ) {after : Dict ℤ}
    → require pool ((k, amount) ∷ items) required ≡ ok after
    → (lookup_or required k (pos 0) +ℤ amount ≤ℤ lookup_or pool k (pos 0))
      × (require pool items (insert required k (lookup_or required k (pos 0) +ℤ amount)) ≡ ok after)
unfolding require
require-cons pool items required k amount h = (
  ltb_ℤ→le (lookup_or required k (pos 0) +ℤ amount) (lookup_or pool k (pos 0)) (ground arith),
  ground arith,
)

insert-Within :
    (pool required : Dict ℤ) (k : String) (total : ℤ)
    → total ≤ℤ lookup_or pool k (pos 0)
    → Within pool required (insert required k total)
insert-Within pool required k total fits res a e =
    ground (arith, lookup-insert required k res total, eq_iff k res)

pub insert-Grows :
    (required : Dict ℤ) (k res : String) (amount rest : ℤ)
    → lookup_or (insert required k (lookup_or required k (pos 0) +ℤ amount)) res (pos 0) +ℤ rest
      ≡ lookup_or required res (pos 0) +ℤ (if str_eq k res then amount +ℤ rest else rest)
insert-Grows required k res amount rest = ground (
  arith,
  lookup_or-insert required k res (lookup_or required k (pos 0) +ℤ amount) (pos 0),
  eq_iff k res,
  +ℤ_assoc (lookup_or required k (pos 0)) amount rest,
)

pub require_lem :
    (pool items required : Dict ℤ) {after : Dict ℤ}
    → require pool items required ≡ ok after
    → Within pool required after × Grows required after (asked items)
unfolding require
require_lem pool [] required h =
    (λ res a e. inl (ground arith), λ res. ground (arith, +ℤ-zero (lookup_or required res (pos 0))))
require_lem pool ((k, amount) ∷ items) required {after} h =
    let total = lookup_or required k (pos 0) +ℤ amount in
    let (fits, next) = require-cons pool items required k amount h in
    let (within, grows) = require_lem pool items (insert required k total) next in
    (
      Within-trans pool required (insert required k total) after
          (insert-Within pool required k total fits) within,
      λ res. grows res ∙ insert-Grows required k res amount (asked items res),
    )

-- ===== src/Auction/Bids.antt =====
-- The validation of the bids.
use qervan_ai.Common.{
  ℕ, zero, suc, false, ◌≡◌, refl, sym, ap, ◌∙◌, ◌↔◌, List, [], ◌∷◌, some, ok, contains, get_elem?,
  ◌==◌, ==_iff, arith, >>=-eq-ok, Bool-cases, ok-ne-err, true-ne-false, eq_of_some, inl, inr,
}
use qervan_ai.Auction.{Bid, Hash, bid_hash, validate_loop, validate_bids, value_error}

-- Bids at different positions have different hashes.
abbrev pub AreDistinct : {V : Type 0} → Hash → List (Bid V) → Type 0
AreDistinct {V} hash bids =
    (i j : ℕ) (a b : Bid V)
    → get_elem? bids i ≡ some a
    → get_elem? bids j ≡ some b
    → bid_hash hash a ≡ bid_hash hash b
    → i ≡ j

abbrev AreNew : {V : Type 0} → Hash → List ℕ → List (Bid V) → Type 0
AreNew {V} hash seen bids =
    (i : ℕ) (a : Bid V) → get_elem? bids i ≡ some a → contains seen (bid_hash hash a) ≡ false

module _ {V : Type 0} (hash : Hash) (seen : List ℕ) (bid : Bid V) (bids : List (Bid V)) where
  abbrev seen_now : List ℕ
  seen_now = bid_hash hash bid ∷ seen

  AreNew-cons :
      contains seen (bid_hash hash bid) ≡ false
      → AreNew hash seen_now bids
      → AreNew hash seen (bid ∷ bids)
  AreNew-cons e new zero a h = ap (λ c. contains seen (bid_hash hash c)) (sym (eq_of_some h)) ∙ e
  AreNew-cons e new (suc i) a h = ground (arith, new i a h)

  AreNew-tail :
      AreNew hash seen (bid ∷ bids) → AreDistinct hash (bid ∷ bids) → AreNew hash seen_now bids
  AreNew-tail new distinct i a h =
      let unseen = new (suc i) a h in
      elim (Bool-cases (bid_hash hash bid == bid_hash hash a)) [
        | inl same ↦
            let equal = (==_iff (bid_hash hash bid) (bid_hash hash a)).0 same in
            let clash : 0 ≡ suc i = distinct 0 (suc i) bid a refl h equal in
            absurd (omega (arith, clash))
        | inr other ↦ ground (arith, unseen, other)
      ]

  AreDistinct-cons :
      AreNew hash seen_now bids → AreDistinct hash bids → AreDistinct hash (bid ∷ bids)
  AreDistinct-cons new distinct zero zero a b h k e = refl
  AreDistinct-cons new distinct zero (suc j) a b h k e =
      let equal : bid_hash hash bid ≡ bid_hash hash b = ap (bid_hash hash) (eq_of_some h) ∙ e in
      let fresh = new j b k in
      let hit = (==_iff (bid_hash hash bid) (bid_hash hash b)).1 equal in
      absurd (true-ne-false (ground (arith, hit, fresh)))
  AreDistinct-cons new distinct (suc i) zero a b h k e =
      let equal : bid_hash hash bid ≡ bid_hash hash a = ap (bid_hash hash) (eq_of_some k) ∙ sym e in
      let fresh = new i a h in
      let hit = (==_iff (bid_hash hash bid) (bid_hash hash a)).1 equal in
      absurd (true-ne-false (ground (arith, hit, fresh)))
  AreDistinct-cons new distinct (suc i) (suc j) a b h k e = ap suc (distinct i j a b h k e)

  AreDistinct-tail : AreDistinct hash (bid ∷ bids) → AreDistinct hash bids
  AreDistinct-tail distinct i j a b h k e =
      let shifted : suc i ≡ suc j = distinct (suc i) (suc j) a b h k e in omega (arith, shifted)

validate_loop_iff :
    {V : Type 0} (hash : Hash) (seen : List ℕ) (bids : List (Bid V))
    → (validate_loop hash seen bids ≡ ok tt) ↔ (AreNew hash seen bids × AreDistinct hash bids)
unfolding validate_loop
validate_loop_iff hash seen [] = ((λ e. ((λ i a h. cc), (λ i j a b h k e. cc))), (λ h. refl))
validate_loop_iff hash seen (bid ∷ bids) =
    let (there, back) = validate_loop_iff hash (bid_hash hash bid ∷ seen) bids in
    elim (Bool-cases (contains seen (bid_hash hash bid))) [
      | inl old ↦ (
        (λ e. absurd (ok-ne-err tt (value_error "Duplicate bid detected") (sym e ∙ rw old refl))),
        (λ h. absurd (true-ne-false (sym old ∙ h.0 0 bid refl))),
      )
      | inr fresh ↦ (
        (λ e.
            let (new, distinct) = there (rw fresh refl ∙ e) in
            (
              AreNew-cons hash seen bid bids fresh new,
              AreDistinct-cons hash seen bid bids new distinct,
            )),
        (λ h. rw fresh (
            back
              (AreNew-tail hash seen bid bids h.0 h.1, AreDistinct-tail hash seen bid bids h.1))),
      )
    ]

-- _validate_bids returns the bids exactly if bids at different positions have different hashes (of package, bidder and
-- nonce; the value is not part).
pub validate_bids_iff :
    {V : Type 0} (hash : Hash) (bids : List (Bid V))
    → (validate_bids hash bids ≡ ok bids) ↔ AreDistinct hash bids
unfolding validate_bids
validate_bids_iff hash bids = (
  (λ e.
      let (u, passes, _) = >>=-eq-ok (validate_loop hash [] bids) _ e in
      ((validate_loop_iff hash [] bids).0 passes).1),
  (λ h. rw ((validate_loop_iff hash [] bids).1 ((λ i a k. refl), h)) refl),
)

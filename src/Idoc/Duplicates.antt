-- ===== src/Idoc/Duplicates.antt =====
-- The check for duplicate segments.
use qervan_ai.Common.{
  ◌≡◌, refl, sym, ap, ◌∙◌, inl, inr, List, [], ◌∷◌, ◌++◌, Option, none, some, Result, err, Text,
  Memᴰ, contains_text, contains_text_iff, Bool-cases,
}
use qervan_ai.Idoc.{
  IdocError, value_error, Segment, get_field, docnum, seg_id, check_loop, check_duplicates,
}

-- How a duplicate is refused.
abbrev pub refused : Result IdocError (Unit {0})
refused = err (value_error "Duplicate segment detected")

-- A segment whose id was seen is refused, wherever it stands.
check_loop_seen :
    (seen : List Text) (first : List Segment) (b : Segment) (last : List Segment)
    → Memᴰ (seg_id b) seen
    → check_loop seen (first ++ b ∷ last) ≡ refused
unfolding check_loop
check_loop_seen seen [] b last m = rw ((contains_text_iff seen (seg_id b)).1 m) refl
check_loop_seen seen (s ∷ first) b last m = elim (Bool-cases (contains_text seen (seg_id s))) [
  | inl old ↦ rw old refl
  | inr fresh ↦ rw fresh (check_loop_seen (seg_id s ∷ seen) first b last (Memᴰ.tail m))
]

check_loop_repeats :
    (seen : List Text) (before between after : List Segment) (a b : Segment)
    → seg_id a ≡ seg_id b
    → check_loop seen (before ++ a ∷ between ++ b ∷ after) ≡ refused
unfolding check_loop
check_loop_repeats seen [] between after a b same =
    elim (Bool-cases (contains_text seen (seg_id a))) [
      | inl old ↦ rw old refl
      | inr fresh ↦
          rw fresh (check_loop_seen (seg_id a ∷ seen) between b after (Memᴰ.head (sym same)))
    ]
check_loop_repeats seen (s ∷ before) between after a b same =
    elim (Bool-cases (contains_text seen (seg_id s))) [
      | inl old ↦ rw old refl
      | inr fresh ↦ rw fresh (check_loop_repeats (seg_id s ∷ seen) before between after a b same)
    ]

-- _check_duplicates refuses every document that has two segments of the same type without a DOCNUM of their own, as two items of
-- an order are, whatever else they hold.
pub check_duplicates_unnumbered :
    (before between after : List Segment) (a b : Segment)
    → a.segment ≡ b.segment
    → get_field a.fields docnum ≡ none
    → get_field b.fields docnum ≡ none
    → check_duplicates (before ++ a ∷ between ++ b ∷ after) ≡ refused
unfolding check_duplicates seg_id
check_duplicates_unnumbered before between after a b same na nb =
    check_loop_repeats [] before between after a b (
      ap (λ t. t ++ 45 ∷ number (get_field a.fields docnum)) same
      ∙ ap (λ n. b.segment ++ 45 ∷ number n) (na ∙ sym nb))
  where
    number : Option Text → Text
    number none = 78 ∷ 111 ∷ 110 ∷ 101 ∷ []
    number (some t) = t

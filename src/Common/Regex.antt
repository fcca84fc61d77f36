-- ===== src/Common/Regex.antt =====
-- The regular expressions that the code hands to Python's `re`, with `match` for a pattern that
-- begins with `^` and ends with `$`. A text is a list of code points.
use Prim.Native.Nat.{ℕ, zero, suc}
use mathlib.Core.Path.{◌≡◌, refl, sym, ap, ◌∙◌, subst}
use mathlib.Core.Logic.{◌↔◌, ◌⊎◌, inl, inr}
use mathlib.Core.Bool.{Bool, true, false, ◌&&◌, ◌||◌}
use mathlib.Core.List.{[], ◌∷◌, ◌++◌}
use native.Mathlib.Omega.{arith}
use qervan_ai.Common.Tests.{leb, ◌==◌, Bool-cases, true-ne-false, if◌then◌else◌}
use qervan_ai.Common.Texts.{Text}

pub data Regex : Type 0 where
  nothing empty : Regex
  set : (ℕ → Bool) → Regex
  seq alt : Regex → Regex → Regex
  star : Regex → Regex

-- The texts that a pattern stands for.
pub data Star (P : Text → Type 0) : Text → Type 0 where
  done : Star P []
  more : (c : ℕ) (xs ys : Text) → P (c ∷ xs) → Star P ys → Star P (c ∷ (xs ++ ys))

abbrev pub Language : Regex → Text → Type 0
Language nothing t = ⊥
Language empty t = t ≡ []
Language (set f) t = (c : ℕ) × (t ≡ c ∷ []) × (f c ≡ true)
Language (seq r s) t = (xs : Text) × (ys : Text) × (t ≡ xs ++ ys) × Language r xs × Language s ys
Language (alt r s) t = Language r t ⊎ Language s t
Language (star r) t = Star (Language r) t

unfoldable pub nullable : Regex → Bool
nullable nothing = false
nullable empty = true
nullable (set f) = false
nullable (seq r s) = nullable r && nullable s
nullable (alt r s) = nullable r || nullable s
nullable (star r) = true

-- What is left of a pattern after a first code point.
unfoldable pub after : ℕ → Regex → Regex
unfolding nullable
after c nothing = nothing
after c empty = nothing
after c (set f) = if f c then empty else nothing
after c (seq r s) =
    let first = seq (after c r) s in if nullable r then alt first (after c s) else first
after c (alt r s) = alt (after c r) (after c s)
after c (star r) = seq (after c r) (star r)

unfoldable pub matches : Regex → Text → Bool
unfolding after
matches r [] = nullable r
matches r (c ∷ t) = matches (after c r) t

-- `$` stands at the end, or before a newline at the end.
abbrev pub anchored : Regex → Regex
anchored r = seq r (alt empty (set (λ c. c == 10)))

append-eq-nil : (xs ys : Text) → [] ≡ xs ++ ys → (xs ≡ []) × (ys ≡ [])
append-eq-nil [] ys e = (refl, sym e)
append-eq-nil (x ∷ xs) ys e = cc

cons-eq-append :
    (c : ℕ) (t xs ys : Text)
    → c ∷ t ≡ xs ++ ys
    → ((xs ≡ []) × (ys ≡ c ∷ t)) ⊎ ((zs : Text) × (xs ≡ c ∷ zs) × (t ≡ zs ++ ys))
cons-eq-append c t [] ys e = inl (refl, sym e)
cons-eq-append c t (x ∷ xs) ys e = inr (xs, cc, cc)

uncons-Star :
    (P : Text → Type 0) (c : ℕ) (t s : Text)
    → Star P s
    → s ≡ c ∷ t
    → (xs : Text) × (ys : Text) × (t ≡ xs ++ ys) × P (c ∷ xs) × Star P ys
uncons-Star P c t _ done e = cc
uncons-Star P c t _ (more d xs ys p k) e =
    let same : d ≡ c = cc in (xs, ys, cc, subst (λ b. P (b ∷ xs)) same p, k)

nullable-Language : (r : Regex) → (nullable r ≡ true) ↔ Language r []
unfolding nullable
nullable-Language nothing = ((λ e. cc), (λ h. elim h [ ]))
nullable-Language empty = ((λ e. refl), (λ h. refl))
nullable-Language (set f) = ((λ e. cc), (λ (c, e, h). cc))
nullable-Language (seq r s) = (
  (λ e. (
    [],
    [],
    refl,
    (nullable-Language r).0 (ground (arith, e)),
    (nullable-Language s).0 (ground (arith, e)),
  )),
  (λ (xs, ys, e, h, k).
      let (left, right) = append-eq-nil xs ys e in
      let a = (nullable-Language r).1 (subst (Language r) left h) in
      let b = (nullable-Language s).1 (subst (Language s) right k) in ground (arith, a, b)),
)
nullable-Language (alt r s) = (
  (λ e. elim (Bool-cases (nullable r)) [
    | inl a ↦ inl ((nullable-Language r).0 a)
    | inr b ↦ inr ((nullable-Language s).0 (ground (arith, b, e)))
  ]),
  (λ h. elim h [
    | inl k ↦ let a = (nullable-Language r).1 k in ground (arith, a)
    | inr k ↦ let a = (nullable-Language s).1 k in ground (arith, a)
  ]),
)
nullable-Language (star r) = ((λ e. done), (λ h. refl))

after-Language : (c : ℕ) (r : Regex) (t : Text) → Language (after c r) t ↔ Language r (c ∷ t)
unfolding after
after-Language c nothing t = ((λ h. h), (λ h. h))
after-Language c empty t = ((λ h. elim h [ ]), (λ e. cc))
after-Language c (set f) t = elim (Bool-cases (f c)) [
  | inl yes_in ↦ (
    (λ h.
        let gone : t ≡ [] = subst (λ b. Language (if b then empty else nothing) t) yes_in h in
        (c, ap (λ u. c ∷ u) gone, yes_in)),
    (λ (d, e, k). subst (λ b. Language (if b then empty else nothing) t) (sym yes_in) (cc)),
  )
  | inr out ↦ (
    (λ h. absurd (subst (λ b. Language (if b then empty else nothing) t) out h)),
    (λ (d, e, k). let same : c ≡ d = cc in absurd (true-ne-false (sym k ∙ ap f (sym same) ∙ out))),
  )
]
after-Language c (seq r s) t =
    let first : Language (seq (after c r) s) t → Language (seq r s) (c ∷ t) =
      λ (xs, ys, e, h, k). (c ∷ xs, ys, ap (λ u. c ∷ u) e, (after-Language c r xs).0 h, k) in
    let choose : Bool → Type 0 =
      λ b. Language (if b then alt (seq (after c r) s) (after c s) else seq (after c r) s) t in
    elim (Bool-cases (nullable r)) [
      | inl n ↦ (
        (λ h. elim (subst choose n h) [
          | inl k ↦ first k
          | inr k ↦ ([], c ∷ t, refl, (nullable-Language r).0 n, (after-Language c s t).0 k)
        ]),
        (λ (xs, ys, e, h, k). subst choose (sym n) (elim (cons-eq-append c t xs ys e) [
          | inl (none_left, all) ↦ inr ((after-Language c s t).1 (subst (Language s) all k))
          | inr (zs, here, rest) ↦
              inl (zs, ys, rest, (after-Language c r zs).1 (subst (Language r) here h), k)
        ])),
      )
      | inr n ↦ (
        (λ h. first (subst choose n h)),
        (λ (xs, ys, e, h, k). subst choose (sym n) (elim (cons-eq-append c t xs ys e) [
          | inl (none_left, all) ↦
              absurd
                (true-ne-false (sym ((nullable-Language r).1 (subst (Language r) none_left h)) ∙ n))
          | inr (zs, here, rest) ↦
              (zs, ys, rest, (after-Language c r zs).1 (subst (Language r) here h), k)
        ])),
      )
    ]
after-Language c (alt r s) t = (
  (λ h. elim h [
    | inl k ↦ inl ((after-Language c r t).0 k)
    | inr k ↦ inr ((after-Language c s t).0 k)
  ]),
  (λ h. elim h [
    | inl k ↦ inl ((after-Language c r t).1 k)
    | inr k ↦ inr ((after-Language c s t).1 k)
  ]),
)
after-Language c (star r) t = (
  (λ (xs, ys, e, h, k).
      subst (λ u. Star (Language r) (c ∷ u)) (sym e)
        (more c xs ys ((after-Language c r xs).0 h) k)),
  (λ h.
      let (xs, ys, e, p, k) = uncons-Star (Language r) c t (c ∷ t) h refl in
      (xs, ys, e, (after-Language c r xs).1 p, k)),
)

-- The matcher decides the language.
pub matches-Language : (r : Regex) (t : Text) → (matches r t ≡ true) ↔ Language r t
unfolding matches
matches-Language r [] = nullable-Language r
matches-Language r (c ∷ t) = (
  (λ e. (after-Language c r t).0 ((matches-Language (after c r) t).0 e)),
  (λ h. (matches-Language (after c r) t).1 ((after-Language c r t).1 h)),
)

-- r+, r?, r{m} and r{m,m+k}.
abbrev pub plus : Regex → Regex
plus r = seq r (star r)

abbrev pub optional : Regex → Regex
optional r = alt empty r

abbrev pub exactly : ℕ → Regex → Regex
exactly zero r = empty
exactly (suc n) r = seq r (exactly n r)

abbrev pub up_to : ℕ → Regex → Regex
up_to zero r = empty
up_to (suc n) r = optional (seq r (up_to n r))

abbrev pub between : ℕ → ℕ → Regex → Regex
between m k r = seq (exactly m r) (up_to k r)

abbrev pub char : ℕ → Regex
char c = set (λ d. d == c)

-- Whether a code point stands in a range.
abbrev pub in_range : ℕ → ℕ → ℕ → Bool
in_range a b c = leb a c && leb c b

abbrev pub is_letter : ℕ → Bool
is_letter c = in_range b'a' b'z' c || in_range b'A' b'Z' c

abbrev pub is_alnum : ℕ → Bool
is_alnum c = is_letter c || in_range b'0' b'9' c

-- [a-zA-Z0-9_-]
abbrev pub is_word_or_dash : ℕ → Bool
is_word_or_dash c = is_alnum c || c == b'_' || c == b'-'

-- A text matches a pattern between `^` and `$`.
abbrev pub match_all : Regex → Text → Bool
match_all r t = matches (anchored r) t

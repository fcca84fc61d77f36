-- ===== src/Gdpr/Checks.antt =====
-- What each of the five checks decides.
use qervan_ai.Common.{
  Bool, true, false, not, ◌≡◌, refl, sym, subst, ◌↔◌, List, [], ◌∷◌, Option, none, some, ok, err,
  Text, text_eq, text_eq_iff, contains_text_iff, is_ascii, arith, Memᴰ, ok-injective, ok-ne-err,
  eq_of_some, Bool-cases, Option-cases, true-ne-false, none-ne-some, ap, ◌∙◌, inl, inr,
}
use mathlib.Core.List.Memᴰ
use qervan_ai.Common.Int.{ℤ, pos, ◌+ℤ◌, neg_ℤ, ltb_ℤ, ltb_ℤ→le, ◌≤ℤ◌}
use qervan_ai.Gdpr.{
  Bytes, Crypto, DateTime, GdprConfig, GdprDataRecord, Engine, datetime_max, add_timedelta,
  le_datetime, is_given, type_error, validate_consents, validate_data_retention,
  validate_encryption, validate_hmac, compare_digest,
}

abbrev pub Consented : GdprConfig → GdprDataRecord → Type 0
Consented config r = (c : Text) → Memᴰ c config.required_consents → Memᴰ c r.consent_ids

pub validate_consents-Consented :
    (required given : List Text)
    → (validate_consents required given ≡ true) ↔ ((c : Text) → Memᴰ c required → Memᴰ c given)
unfolding validate_consents
validate_consents-Consented [] given = ((λ e c m. absurd (Memᴰ.not-nil m)), (λ f. refl))
validate_consents-Consented (x ∷ xs) given = (
  (λ e c m. elim (Memᴰ.cases_cons m) [
    | inl same ↦
        subst (λ t. Memᴰ t given) (sym same) ((contains_text_iff given x).0 (ground (arith, e)))
    | inr later ↦ (validate_consents-Consented xs given).0 (ground (arith, e)) c later
  ]),
  (λ f.
      let here = (contains_text_iff given x).1 (f x (Memᴰ.head refl)) in
      let rest = (validate_consents-Consented xs given).1 (λ c m. f c (Memᴰ.tail m)) in
      rw (here, rest) refl),
)

-- The time in UTC; a naive datetime counts as it is.
pub instant : DateTime → ℤ
instant d = elim d.utcoffset [ none ↦ d.local | some q ↦ d.local +ℤ neg_ℤ q ]

abbrev pub is_aware : DateTime → Bool
is_aware d = elim d.utcoffset [ none ↦ false | some q ↦ true ]

-- The retention ends no later than the period after the collection, and both can be computed and compared.
pub record Retained (config : GdprConfig) (r : GdprDataRecord) : Type 0 where
  pub from_min : pos 0 ≤ℤ r.collected_at.local +ℤ config.max_data_retention
  pub to_max : r.collected_at.local +ℤ config.max_data_retention ≤ℤ datetime_max
  pub comparable : is_aware r.retention_end ≡ is_aware r.collected_at
  pub ends :
      instant r.retention_end
      ≤ℤ instant
          (record r.collected_at { local = r.collected_at.local +ℤ config.max_data_retention })

not_later : (x y : ℤ) → (not (ltb_ℤ y x) ≡ true) ↔ (x ≤ℤ y)
not_later x y = ((λ e. ground (arith, e)), (λ l. ground (arith, l)))

-- The order of two datetimes with these offsets.
with_offsets :
    (x y : ℤ) (p q : Option ℤ)
    → let a : DateTime = record { local = x; utcoffset = p } in
      let b : DateTime = record { local = y; utcoffset = q } in
      (le_datetime a b ≡ ok true) ↔ ((is_aware a ≡ is_aware b) × (instant a ≤ℤ instant b))
unfolding le_datetime instant
with_offsets x y none none =
    ((λ e. (refl, (not_later x y).0 (ok-injective e))), (λ (s, l). ap ok ((not_later x y).1 l)))
with_offsets x y none (some q) = ((λ e. cc), (λ (s, l). absurd (true-ne-false (sym s))))
with_offsets x y (some p) none = ((λ e. cc), (λ (s, l). absurd (true-ne-false s)))
with_offsets x y (some p) (some q) =
    let order = not_later (x +ℤ neg_ℤ p) (y +ℤ neg_ℤ q) in
    ((λ e. (refl, order.0 (ok-injective e))), (λ (s, l). ap ok (order.1 l)))

le_datetime-instant :
    (a b : DateTime)
    → (le_datetime a b ≡ ok true) ↔ ((is_aware a ≡ is_aware b) × (instant a ≤ℤ instant b))
le_datetime-instant a b = with_offsets a.local b.local a.utcoffset b.utcoffset

pub validate_data_retention-Retained :
    (config : GdprConfig) (r : GdprDataRecord)
    → (validate_data_retention config r ≡ ok true) ↔ Retained config r
unfolding validate_data_retention add_timedelta
validate_data_retention-Retained config r =
    let moved = r.collected_at.local +ℤ config.max_data_retention in
    elim (Bool-cases (ltb_ℤ moved (pos 0))) [
      | inl early ↦ (
        (λ e. absurd (true-ne-false (ground (arith, early, e)))),
        (λ h. ground (arith, early, h.from_min)),
      )
      | inr start ↦ elim (Bool-cases (ltb_ℤ datetime_max moved)) [
        | inl late ↦ (
          (λ e. absurd (true-ne-false (ground (arith, start, late, e)))),
          (λ h. ground (arith, late, h.to_max)),
        )
        | inr end ↦
            let order =
              le_datetime-instant r.retention_end (record r.collected_at { local = moved }) in
            let in_range : validate_data_retention config r
                ≡ le_datetime r.retention_end (record r.collected_at { local = moved }) =
              rw (start, end) refl in
            (
              (λ e.
                  let found = order.0 (sym in_range ∙ e) in
                  record {
                    from_min = ltb_ℤ→le (pos 0) moved start;
                    to_max = ltb_ℤ→le moved datetime_max end;
                    comparable = found.0;
                    ends = found.1;
                  }),
              (λ h. in_range ∙ order.1 (h.comparable, h.ends)),
            )
      ]
    ]

abbrev pub Encrypted : Engine → GdprDataRecord → Type 0
Encrypted engine r =
    (r.encrypted ≡ true) × ((plain : Bytes) × (engine.cipher r.raw_content ≡ some plain))

pub validate_encryption-Encrypted :
    (engine : Engine) (r : GdprDataRecord)
    → (validate_encryption engine r ≡ true) ↔ Encrypted engine r
unfolding validate_encryption
validate_encryption-Encrypted engine r = elim (Bool-cases r.encrypted) [
  | inr plain ↦ (
    (λ e. absurd (true-ne-false (ground (arith, plain, e)))),
    (λ (e, d). absurd (true-ne-false (sym e ∙ plain))),
  )
  | inl marked ↦ elim (Option-cases (engine.cipher r.raw_content)) [
    | inl fails ↦ (
      (λ e. absurd (true-ne-false (ground (arith, marked, fails, e)))),
      (λ (e, (x, d)). absurd (none-ne-some (sym fails ∙ d))),
    )
    | inr (x, d) ↦ ((λ e. (marked, (x, d))), (λ h. rw (marked, d) refl))
  ]
]

-- With a secret and a signature that are not empty, the signature is the digest of the content.
abbrev pub Authentic : Crypto → GdprConfig → GdprDataRecord → Type 0
Authentic crypto config r =
    (key : Bytes) (signature : Text)
    → config.hmac_secret ≡ some key
    → r.signature ≡ some signature
    → is_given (some key) ≡ true
    → is_given (some signature) ≡ true
    → signature ≡ crypto.hexdigest key r.raw_content

compare_digest-eq : (a b : Text) → is_ascii a ≡ true → (compare_digest a b ≡ ok true) ↔ (a ≡ b)
unfolding compare_digest
compare_digest-eq a b ascii = elim (Bool-cases (is_ascii b)) [
  | inl plain ↦
      let compared : compare_digest a b ≡ ok (text_eq a b) = rw (ascii, plain) refl in
      (
        (λ e. (text_eq_iff a b).0 (ok-injective (sym compared ∙ e))),
        (λ same. compared ∙ ap ok ((text_eq_iff a b).1 same)),
      )
  | inr other ↦
      let refused : compare_digest a b ≡ err type_error = rw (ascii, other) refl in
      (
        (λ e. absurd (ok-ne-err true type_error (sym e ∙ refused))),
        (λ same. absurd (true-ne-false (sym ascii ∙ ap is_ascii same ∙ other))),
      )
]

hmac_cases :
    (crypto : Crypto) (content : Bytes) (secret : Option Bytes) (given : Option Text)
    → (validate_hmac crypto secret given content ≡ ok true) ↔ (
        (key : Bytes) (signature : Text)
        → secret ≡ some key
        → given ≡ some signature
        → is_given (some key) ≡ true
        → is_given (some signature) ≡ true
        → signature ≡ crypto.hexdigest key content)
unfolding validate_hmac
hmac_cases crypto content none given = ((λ e k s x y u v. cc), (λ f. refl))
hmac_cases crypto content (some []) given =
    ((λ e k s x y u v. absurd (true-ne-false (sym u ∙ ap is_given (sym x)))), (λ f. refl))
hmac_cases crypto content (some (k ∷ key)) none = ((λ e k' s x y u v. cc), (λ f. refl))
hmac_cases crypto content (some (k ∷ key)) (some []) =
    ((λ e k' s x y u v. absurd (true-ne-false (sym v ∙ ap is_given (sym y)))), (λ f. refl))
hmac_cases crypto content (some (k ∷ key)) (some (c ∷ rest)) =
    let compared =
      compare_digest-eq (crypto.hexdigest (k ∷ key) content) (c ∷ rest)
        (crypto.hexdigest-ascii (k ∷ key) content) in
    (
      (λ e k' s x y u v.
          sym (eq_of_some y)
          ∙ sym (compared.0 e)
          ∙ ap (λ a. crypto.hexdigest a content) (eq_of_some x)),
      (λ f. compared.1 (sym (f (k ∷ key) (c ∷ rest) refl refl refl refl))),
    )

pub validate_hmac-Authentic :
    (crypto : Crypto) (config : GdprConfig) (r : GdprDataRecord)
    → (validate_hmac crypto config.hmac_secret r.signature r.raw_content ≡ ok true)
      ↔ Authentic crypto config r
validate_hmac-Authentic crypto config r =
    hmac_cases crypto r.raw_content config.hmac_secret r.signature

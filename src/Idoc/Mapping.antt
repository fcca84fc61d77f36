-- ===== src/Idoc/Mapping.antt =====
-- _apply_mapping_template and _validate_field, on data whose values are texts or None.
use qervan_ai.Common.{
  ℕ, false, ◌≡◌, ◌≤◌, refl, sym, ap, ◌∙◌, ◌↔◌, inl, inr, List, [], ◌∷◌, Option, none, some, Result,
  ok, err, ◌>>=◌, >>=-eq-ok, Text, text_eq, Bool-cases, ok-ne-err, ok-injective, length, ltb,
  if◌then◌else◌, All, map, arith,
}
use qervan_ai.Idoc.{IdocError, value_error, name_error, Fields}

pub record Rules : Type 0 where
  pub max_length : Option ℕ
  pub pattern : Option Text

pub record Mapping : Type 0 where
  pub path : Text
  pub default : Option Text
  pub validation : Option Rules

-- `re` is not imported: the test of a pattern raises NameError.
unfoldable pub validate_field : Text → Rules → Result IdocError (Unit {0})
validate_field value rules =
    let pattern_test : Result IdocError (Unit {0}) = elim rules.pattern [
      | none ↦ ok tt
      | some pattern ↦ err name_error
    ] in
    elim rules.max_length [
      | none ↦ pattern_test
      | some n ↦
          if ltb n (length value)
          then err (value_error "Field exceeds max length")
          else pattern_test
    ]

-- data.get(path, default)
unfoldable pub get_or_default : Fields → Text → Option Text → Option Text
get_or_default [] k default = default
get_or_default ((j, v) ∷ data') k default =
    if text_eq j k then v else get_or_default data' k default

-- if value and mapping.get('validation')
unfoldable pub check_value : Option Text → Option Rules → Result IdocError (Unit {0})
unfolding validate_field
check_value none rules = ok tt
check_value (some []) rules = ok tt
check_value (some (c ∷ cs)) none = ok tt
check_value (some (c ∷ cs)) (some rules) = validate_field (c ∷ cs) rules

unfoldable pub apply_mapping_template :
    Fields → List (Text × Mapping) → Result IdocError (List (Text × Option Text))
unfolding get_or_default check_value
apply_mapping_template fields [] = ok []
apply_mapping_template fields ((edi_field, mapping) ∷ template) =
    let value = get_or_default fields mapping.path mapping.default in
    let rest = apply_mapping_template fields template in
    check_value value mapping.validation >>= λ _.
    rest >>= λ transformed. ok ((edi_field, value) ∷ transformed)

-- The value is none or empty, or no rule is given for it, or it is short enough and no pattern is asked for.
pub data Admitted : Option Text → Option Rules → Type 0 where
  no_value : (rules : Option Rules) → Admitted none rules
  empty_value : (rules : Option Rules) → Admitted (some []) rules
  no_rules : (c : ℕ) (cs : Text) → Admitted (some (c ∷ cs)) none
  unbounded :
      (c : ℕ) (cs : Text)
      → Admitted (some (c ∷ cs)) (some (record { max_length = none; pattern = none }))
  bounded :
      (c : ℕ) (cs : Text) (n : ℕ)
      → length (c ∷ cs) ≤ n
      → Admitted (some (c ∷ cs)) (some (record { max_length = some n; pattern = none }))

-- With rules of these parts.
with_rules :
    (c : ℕ) (cs : Text) (most : Option ℕ) (pattern : Option Text)
    → let rules : Rules = record { max_length = most; pattern = pattern } in
      (check_value (some (c ∷ cs)) (some rules) ≡ ok tt) → Admitted (some (c ∷ cs)) (some rules)
unfolding check_value validate_field
with_rules c cs none none e = unbounded c cs
with_rules c cs none (some p) e = cc
with_rules c cs (some n) p e = elim (Bool-cases (ltb n (length (c ∷ cs)))) [
  | inl long ↦ absurd (
      ok-ne-err tt (value_error "Field exceeds max length")
        (sym e ∙ rw (long, validate_field) refl))
  | inr short ↦ no_pattern p (sym (rw (short, validate_field) refl) ∙ e) (ground (arith, short))
]
  where
    no_pattern :
        (q : Option Text)
        → ◌≡◌ {A = Result IdocError (Unit {0})}
            (elim q [ none ↦ ok tt | some t ↦ err name_error ])
            (ok tt)
        → length (c ∷ cs) ≤ n
        → Admitted (some (c ∷ cs)) (some (record { max_length = some n; pattern = q }))
    no_pattern none h l = bounded c cs n l
    no_pattern (some t) h l = cc

check_value-Admitted :
    (value : Option Text) (rules : Option Rules)
    → check_value value rules ≡ ok tt
    → Admitted value rules
check_value-Admitted none rules e = no_value rules
check_value-Admitted (some []) rules e = empty_value rules
check_value-Admitted (some (c ∷ cs)) none e = no_rules c cs
check_value-Admitted (some (c ∷ cs)) (some rules) e =
    with_rules c cs rules.max_length rules.pattern e

Admitted-check_value :
    (value : Option Text) (rules : Option Rules)
    → Admitted value rules
    → check_value value rules ≡ ok tt
unfolding check_value validate_field
Admitted-check_value _ _ (no_value rules) = refl
Admitted-check_value _ _ (empty_value rules) = refl
Admitted-check_value _ _ (no_rules c cs) = refl
Admitted-check_value _ _ (unbounded c cs) = refl
Admitted-check_value _ _ (bounded c cs n l) =
    let short : ltb n (length (c ∷ cs)) ≡ false = ground (arith, l) in
    rw (short, validate_field) refl

-- An entry of the template whose value is admitted.
abbrev pub Passes : Fields → Text × Mapping → Type 0
Passes fields entry =
    Admitted (get_or_default fields entry.1.path entry.1.default) entry.1.validation

abbrev pub mapped : Fields → List (Text × Mapping) → List (Text × Option Text)
mapped fields template =
    map (λ (entry : Text × Mapping). (entry.0, get_or_default fields entry.1.path entry.1.default))
      template

-- _apply_mapping_template returns exactly if every value of the template (of the data, or the default) is admitted: it is
-- none or empty, or has no rules, or is within the greatest length and no pattern is asked for (every pattern raises
-- NameError). It then gives each field of the template its value, in order.
pub apply_mapping_template_iff :
    (fields : Fields) (template : List (Text × Mapping)) (out : List (Text × Option Text))
    → (apply_mapping_template fields template ≡ ok out)
      ↔ (All (Passes fields) template × (mapped fields template ≡ out))
unfolding apply_mapping_template
apply_mapping_template_iff fields [] out = ((λ e. (tt, ok-injective e)), (λ h. ap ok h.1))
apply_mapping_template_iff fields ((edi_field, mapping) ∷ template) out =
    let value = get_or_default fields mapping.path mapping.default in
    (
      (λ e.
          let (u, passes, e1) = >>=-eq-ok (check_value value mapping.validation) _ e in
          let (transformed, rest, e2) = >>=-eq-ok (apply_mapping_template fields template) _ e1 in
          let (all, same) = (apply_mapping_template_iff fields template transformed).0 rest in
          (
            (check_value-Admitted value mapping.validation passes, all),
            ap (λ t. (edi_field, value) ∷ t) same ∙ ok-injective e2,
          )),
      (λ h.
          let passes = Admitted-check_value value mapping.validation h.0.0 in
          let rest =
            (apply_mapping_template_iff fields template (mapped fields template)).1 (h.0.1, refl) in
          rw (passes, rest) (ap ok h.1)),
    )

-- ===== src/Gdpr/Audit.antt =====
-- The construction of the engine, and what the signature of the audit log covers.
use mathlib.Core.List.{append_assoc}
use qervan_ai.Common.{
  Bool, true, ◌≡◌, ◌≤◌, refl, sym, ap, ◌∙◌, ◌↔◌, List, [], ◌∷◌, ◌++◌, some, Result, ok, err, ◌>>=◌,
  arith, ok-injective, Bool-cases, Option-cases, Result-cases, >>=-eq-ok, none-ne-some, ok-ne-err,
  eq_of_some, Text, length, ◌==◌, ==_iff, All, true-ne-false, inl, inr,
}
use qervan_ai.Gdpr.{
  Crypto, GdprConfig, GdprDataRecord, Engine, GdprError, value_error, all_long,
  validate_initialization, new_engine, AuditLog, audit_payload, generate_audit_signature,
  generate_audit_log,
}

abbrev pub IsLong : Text → Type 0
IsLong c = 4 ≤ length c

all_long-All : (cs : List Text) → (all_long cs ≡ true) ↔ All IsLong cs
unfolding all_long
all_long-All [] = ((λ e. tt), (λ h. refl))
all_long-All (c ∷ cs) = (
  (λ e. (ground (arith, e), (all_long-All cs).0 (ground (arith, e)))),
  (λ h. let first = h.0 in let rest = (all_long-All cs).1 h.1 in ground (arith, first, rest)),
)

validate_initialization-eq :
    (config : GdprConfig)
    → (validate_initialization config ≡ ok tt)
      ↔ ((length config.encryption_key ≡ 44) × All IsLong config.required_consents)
unfolding validate_initialization
validate_initialization-eq config = elim (Bool-cases (length config.encryption_key == 44)) [
  | inr other ↦ (
    (λ e.
        absurd
          (ok-ne-err tt (value_error "Invalid encryption key length") (sym e ∙ rw other refl))),
    (λ h. absurd (true-ne-false (sym ((==_iff (length config.encryption_key) 44).1 h.0) ∙ other))),
  )
  | inl same ↦ elim (Bool-cases (all_long config.required_consents)) [
    | inr short ↦ (
      (λ e.
          absurd
            (ok-ne-err tt (value_error "Invalid consent format") (sym e ∙ rw (same, short) refl))),
      (λ h. absurd (true-ne-false (sym ((all_long-All config.required_consents).1 h.1) ∙ short))),
    )
    | inl long ↦ (
      (λ e. (
        (==_iff (length config.encryption_key) 44).0 same,
        (all_long-All config.required_consents).0 long,
      )),
      (λ h. rw (same, long) refl),
    )
  ]
]

-- An engine is built exactly if Fernet takes the key, the key has 44 characters, and every required
-- consent has 4 or more; it then has this configuration and the cipher of this key.
pub new_engine_iff :
    (crypto : Crypto) (config : GdprConfig) (engine : Engine)
    → (new_engine crypto config ≡ ok engine) ↔ (
        (crypto.fernet config.encryption_key ≡ some engine.cipher)
        × (engine.config ≡ config)
        × (length config.encryption_key ≡ 44)
        × All IsLong config.required_consents)
unfolding new_engine
new_engine_iff crypto config engine = elim (Option-cases (crypto.fernet config.encryption_key)) [
  | inl refused ↦ (
    (λ e. absurd (
        ok-ne-err engine (value_error "Fernet key must be 32 url-safe base64-encoded bytes.")
          (sym e ∙ rw (refused, new_engine) refl))),
    (λ h. absurd (none-ne-some (sym refused ∙ h.0))),
  )
  | inr (cipher, taken) ↦
      let built : Result GdprError Engine =
        validate_initialization config >>= λ _. ok (record { config = config; cipher = cipher }) in
      let steps : new_engine crypto config ≡ built = rw (taken, new_engine) refl in
      (
        (λ e.
            let (u, valid, same) = >>=-eq-ok (validate_initialization config) _ (sym steps ∙ e) in
            let engine_is = ok-injective same in
            let (size, long) = (validate_initialization-eq config).0 valid in
            (
              taken ∙ ap (λ (d : Engine). some d.cipher) engine_is,
              sym (ap (λ (d : Engine). d.config) engine_is),
              size,
              long,
            )),
        (λ h.
            let valid = (validate_initialization-eq config).1 (h.2, h.3) in
            let same : cipher ≡ engine.cipher = eq_of_some (sym taken ∙ h.0) in
            steps
            ∙ rw valid (
                ap (λ d. ok (record { config = config; cipher = d })) same
                ∙ ap (λ c. ok (record { config = c; cipher = engine.cipher })) (sym h.1))),
      )
]

abbrev pub signature_of : Result GdprError AuditLog → Result GdprError Text
signature_of (err e) = err e
signature_of (ok log) = ok log.audit_signature

signature_of-log :
    (crypto : Crypto) (now : Text) (engine : Engine) (r : GdprDataRecord) (compliant : Bool)
    → signature_of (generate_audit_log crypto now engine r compliant)
      ≡ generate_audit_signature crypto engine r
unfolding generate_audit_log
signature_of-log crypto now engine r compliant =
    elim (Result-cases (generate_audit_signature crypto engine r)) [
      | inl (s, e) ↦ rw e refl
      | inr (x, e) ↦ rw e refl
    ]

-- The signature of an audit log does not tell these apart: the logs of two records that split the text `a|b|c`
-- into user and data type at different bars, written at any times, with any two verdicts.
pub generate_audit_log-ambiguous :
    (crypto : Crypto) (engine : Engine) (r : GdprDataRecord) (a b c now later : Text)
    (compliant violated : Bool)
    → signature_of (
        generate_audit_log crypto now engine
          (record r { user_id = a; data_type = b ++ (124 ∷ c) })
          compliant)
      ≡ signature_of (
          generate_audit_log crypto later engine
            (record r { user_id = a ++ (124 ∷ b); data_type = c })
            violated)
unfolding generate_audit_signature
generate_audit_log-ambiguous crypto engine r a b c now later compliant violated =
    let first = record r { user_id = a; data_type = b ++ (124 ∷ c) } in
    let second = record r { user_id = a ++ (124 ∷ b); data_type = c } in
    let same : audit_payload crypto first ≡ audit_payload crypto second = payloads in
    signature_of-log crypto now engine first compliant
    ∙ rw (same, generate_audit_signature) refl
    ∙ sym (signature_of-log crypto later engine second violated)
  where
    payloads :
        audit_payload crypto (record r { user_id = a; data_type = b ++ (124 ∷ c) })
        ≡ audit_payload crypto (record r { user_id = a ++ (124 ∷ b); data_type = c })
    payloads = simp (audit_payload, append_assoc)

-- ===== src/Gdpr/Verify.antt =====
-- verify_compliance against the five rules.
use qervan_ai.Common.{
  Bool, true, false, not, ◌&&◌, ◌||◌, ◌≡◌, refl, sym, ap, ◌∙◌, subst, ◌↔◌, String, List, [], ◌∷◌,
  none, some, Result, ok, contains_text, contains_text_iff, contains_str, arith, Memᴰ, ok-injective,
  >>=-eq-ok, cons-ne-nil, str_eq,
}
use qervan_ai.Gdpr.{
  Bytes, Crypto, GdprDataRecord, Engine, append_unless, is_empty, GdprError, validate_consents,
  validate_data_retention, validate_encryption, validate_hmac, verify_compliance,
}
use qervan_ai.Gdpr.Checks.{
  Consented, Retained, Encrypted, Authentic, validate_consents-Consented,
  validate_data_retention-Retained, validate_encryption-Encrypted, validate_hmac-Authentic,
}

pub record IsCompliant (crypto : Crypto) (engine : Engine) (r : GdprDataRecord) : Type 0 where
  pub consented : Consented engine.config r
  pub retained : Retained engine.config r
  pub minimal : Memᴰ r.data_type engine.config.allowed_data_types
  pub encrypted : Encrypted engine r
  pub authentic : Authentic crypto engine.config r

-- The messages of the failed ones of five checks.
pub report : Bool → Bool → Bool → Bool → Bool → List String
unfolding append_unless
report consented retained minimal encrypted authentic =
    append_unless authentic "Data integrity verification failed" (
      append_unless encrypted "Encryption requirement failed" (
        append_unless minimal "Data minimization violation" (
          append_unless retained "Invalid data retention period"
            (append_unless consented "Missing required consents" []))))

append_unless-nil :
    (b : Bool) (m : String) (vs : List String) → append_unless b m vs ≡ [] → (b ≡ true) × (vs ≡ [])
unfolding append_unless
append_unless-nil true m vs e = (refl, e)
append_unless-nil false m [] e = absurd (cons-ne-nil e)
append_unless-nil false m (v ∷ vs) e = absurd (cons-ne-nil e)

report-nil :
    (c r m e a : Bool)
    → report c r m e a ≡ []
    → (c ≡ true) × (r ≡ true) × (m ≡ true) × (e ≡ true) × (a ≡ true)
unfolding report
report-nil c r m e a none_failed =
    let (a', v4) = append_unless-nil a "Data integrity verification failed" _ none_failed in
    let (e', v3) = append_unless-nil e "Encryption requirement failed" _ v4 in
    let (m', v2) = append_unless-nil m "Data minimization violation" _ v3 in
    let (r', v1) = append_unless-nil r "Invalid data retention period" _ v2 in
    let (c', v0) = append_unless-nil c "Missing required consents" [] v1 in (c', r', m', e', a')

append_unless-contains :
    (b : Bool) (m k : String) (vs : List String)
    → contains_str (append_unless b m vs) k ≡ (contains_str vs k || (not b && str_eq m k))
unfolding append_unless
append_unless-contains true m k vs = ground arith
append_unless-contains false m k [] = ground arith
append_unless-contains false m k (v ∷ vs) = ground (arith, append_unless-contains false m k vs)

-- Each message is reported exactly if its check fails.
report-lists :
    (c r m e a : Bool)
    → (contains_str (report c r m e a) "Missing required consents" ≡ not c)
      × (contains_str (report c r m e a) "Invalid data retention period" ≡ not r)
      × (contains_str (report c r m e a) "Data minimization violation" ≡ not m)
      × (contains_str (report c r m e a) "Encryption requirement failed" ≡ not e)
      × (contains_str (report c r m e a) "Data integrity verification failed" ≡ not a)
unfolding report
report-lists c r m e a = (
  at_key "Missing required consents" ∙ ground arith,
  at_key "Invalid data retention period" ∙ ground arith,
  at_key "Data minimization violation" ∙ ground arith,
  at_key "Encryption requirement failed" ∙ ground arith,
  at_key "Data integrity verification failed" ∙ ground arith,
)
  where
    at_key :
        (k : String)
        → contains_str (report c r m e a) k ≡ (
            ((((false || (not c && str_eq "Missing required consents" k))
                  || (not r && str_eq "Invalid data retention period" k))
                || (not m && str_eq "Data minimization violation" k))
              || (not e && str_eq "Encryption requirement failed" k))
            || (not a && str_eq "Data integrity verification failed" k))
    at_key k = simp (append_unless-contains)

-- A check that decides a rule, and the list that has its message where it fails.
unlisted_iff :
    {P : Type 0} (listed passed : Bool)
    → listed ≡ not passed
    → (passed ≡ true) ↔ P
    → (listed ≡ false) ↔ P
unlisted_iff listed passed e decides =
    ((λ l. decides.0 (ground (arith, e, l))), (λ h. let k = decides.1 h in ground (arith, e, k)))

is_empty-eq : (vs : List String) → (is_empty vs ≡ true) ↔ (vs ≡ [])
is_empty-eq [] = ((λ e. refl), (λ e. refl))
is_empty-eq (v ∷ vs) = ((λ e. cc), (λ e. absurd (cons-ne-nil e)))

returned_iff :
    {P : Type 0} {m : Result GdprError Bool} {b : Bool}
    → m ≡ ok b
    → (m ≡ ok true) ↔ P
    → (b ≡ true) ↔ P
returned_iff e decides = ((λ t. decides.0 (e ∙ ap ok t)), (λ h. ok-injective (sym e ∙ decides.1 h)))

module _ (crypto : Crypto) (engine : Engine) (r : GdprDataRecord) where
  -- What is reported when the checks that can raise return.
  abbrev reported : Bool → Bool → List String
  reported retained authentic =
      report (validate_consents engine.config.required_consents r.consent_ids) retained
        (contains_text engine.config.allowed_data_types r.data_type) (validate_encryption engine r)
        authentic

  -- A returned verdict is that of the checks.
  verify_compliance_returns :
      {verdict : Bool × List String}
      → verify_compliance crypto engine r ≡ ok verdict
      → (retained authentic : Bool) × (validate_data_retention engine.config r ≡ ok retained)
        × (validate_hmac crypto engine.config.hmac_secret r.signature r.raw_content ≡ ok authentic)
        × ((is_empty (reported retained authentic), reported retained authentic) ≡ verdict)
  unfolding verify_compliance report
  verify_compliance_returns e =
      let (retained, hr, e1) = >>=-eq-ok (validate_data_retention engine.config r) _ e in
      let (authentic, ha, e2) =
        >>=-eq-ok (validate_hmac crypto engine.config.hmac_secret r.signature r.raw_content) _ e1 in
      (retained, authentic, hr, ha, ok-injective e2)

  verify_compliance_rule :
      (retained authentic : Bool)
      → validate_data_retention engine.config r ≡ ok retained
      → validate_hmac crypto engine.config.hmac_secret r.signature r.raw_content ≡ ok authentic
      → verify_compliance crypto engine r
        ≡ ok (is_empty (reported retained authentic), reported retained authentic)
  unfolding verify_compliance report
  verify_compliance_rule retained authentic hr ha = rw (hr, ha) refl

  clean :
      validate_consents engine.config.required_consents r.consent_ids ≡ true
      → contains_text engine.config.allowed_data_types r.data_type ≡ true
      → validate_encryption engine r ≡ true
      → ◌≡◌ {A = Result GdprError (Bool × List String)}
          (ok (is_empty (reported true true), reported true true))
          (ok (true, []))
  unfolding report append_unless
  clean c m n = rw (c, m, n) refl

  -- verify_compliance returns (True, []) exactly if every required consent is given, the retention
  -- ends within the period after the collection (both datetimes naive or both aware, the last day in
  -- range), the data type is allowed, the content is marked as encrypted and decrypts, and a signature that is not
  -- empty is the digest of the content under a secret that is not empty.
  pub verify_compliance_iff :
      (verify_compliance crypto engine r ≡ ok (true, [])) ↔ IsCompliant crypto engine r
  verify_compliance_iff = (
    (λ e.
        let (retained, authentic, hr, ha, same) = verify_compliance_returns e in
        let (c, b, m, n, a) = report-nil _ retained _ _ authentic (ap (λ v. v.1) same) in
        record {
          consented =
              (validate_consents-Consented engine.config.required_consents r.consent_ids).0 c;
          retained = (validate_data_retention-Retained engine.config r).0 (hr ∙ ap ok b);
          minimal = (contains_text_iff engine.config.allowed_data_types r.data_type).0 m;
          encrypted = (validate_encryption-Encrypted engine r).0 n;
          authentic = (validate_hmac-Authentic crypto engine.config r).0 (ha ∙ ap ok a);
        }),
    (λ h.
        let c =
          (validate_consents-Consented engine.config.required_consents r.consent_ids).1
            h.consented in
        let b = (validate_data_retention-Retained engine.config r).1 h.retained in
        let m = (contains_text_iff engine.config.allowed_data_types r.data_type).1 h.minimal in
        let n = (validate_encryption-Encrypted engine r).1 h.encrypted in
        let a = (validate_hmac-Authentic crypto engine.config r).1 h.authentic in
        verify_compliance_rule true true b a ∙ clean c m n),
  )

  -- Where verify_compliance returns, it says compliant exactly if it lists no violation, and it lists the
  -- message of each of the five checks exactly if that check fails.
  pub verify_compliance_reports :
      (compliant : Bool) (violations : List String)
      → verify_compliance crypto engine r ≡ ok (compliant, violations)
      → ((compliant ≡ true) ↔ (violations ≡ []))
        × ((contains_str violations "Missing required consents" ≡ false)
            ↔ Consented engine.config r)
        × ((contains_str violations "Invalid data retention period" ≡ false)
            ↔ Retained engine.config r)
        × ((contains_str violations "Data minimization violation" ≡ false)
            ↔ Memᴰ r.data_type engine.config.allowed_data_types)
        × ((contains_str violations "Encryption requirement failed" ≡ false) ↔ Encrypted engine r)
        × ((contains_str violations "Data integrity verification failed" ≡ false)
            ↔ Authentic crypto engine.config r)
  verify_compliance_reports compliant violations e =
      let (retained, authentic, hr, ha, same) = verify_compliance_returns e in
      let lists =
        report-lists (validate_consents engine.config.required_consents r.consent_ids) retained
          (contains_text engine.config.allowed_data_types r.data_type)
          (validate_encryption engine r) authentic in
      let vs = ap (λ v. v.1) same in
      let at : (k : String)
          → contains_str violations k ≡ contains_str (reported retained authentic) k =
        λ k. ap (λ l. contains_str l k) (sym vs) in
      (
        subst (λ v. (v.0 ≡ true) ↔ (v.1 ≡ [])) same (is_empty-eq (reported retained authentic)),
        unlisted_iff _ _ (at "Missing required consents" ∙ lists.0)
            (validate_consents-Consented engine.config.required_consents r.consent_ids),
        unlisted_iff _ _ (at "Invalid data retention period" ∙ lists.1)
            (returned_iff hr (validate_data_retention-Retained engine.config r)),
        unlisted_iff _ _ (at "Data minimization violation" ∙ lists.2)
            (contains_text_iff engine.config.allowed_data_types r.data_type),
        unlisted_iff _ _ (at "Encryption requirement failed" ∙ lists.3)
            (validate_encryption-Encrypted engine r),
        unlisted_iff _ _ (at "Data integrity verification failed" ∙ lists.4)
            (returned_iff ha (validate_hmac-Authentic crypto engine.config r)),
      )

-- The signature is no protection: a compliant record stays compliant when its signature is taken off and its
-- content is replaced by any other content that decrypts.
pub verify_compliance-unsigned :
    (crypto : Crypto) (engine : Engine) (r : GdprDataRecord) (content plain : Bytes)
    → verify_compliance crypto engine r ≡ ok (true, [])
    → engine.cipher content ≡ some plain
    → verify_compliance crypto engine (record r { raw_content = content; signature = none })
      ≡ ok (true, [])
verify_compliance-unsigned crypto engine r content plain e d =
    let h = (verify_compliance_iff crypto engine r).0 e in
    (verify_compliance_iff crypto engine (record r { raw_content = content; signature = none })).1
      (record {
        consented = h.consented;
        retained = record {
          from_min = h.retained.from_min;
          to_max = h.retained.to_max;
          comparable = h.retained.comparable;
          ends = h.retained.ends;
        };
        minimal = h.minimal;
        encrypted = (h.encrypted.0, (plain, d));
        authentic = λ key signature k s u v. cc;
      })

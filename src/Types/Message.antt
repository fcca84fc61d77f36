-- ===== src/Types/Message.antt =====
-- developer_experience/sdk/python/nuzon/types.py: which messages AgentMessage accepts.
use qervan_ai.Common.Fields.{
  build, refuse_unless, build-ok, refuse_unless-nil, refuse_unless-last, append-nil_iff,
}
use qervan_ai.Common.{
  Bool, ℕ, true, List, [], ◌∷◌, ◌++◌, ok, ◌≡◌, refl, ◌↔◌, ◌⊎◌, inl, inr, ◌≤◌, arith, Text,
}
use qervan_ai.Common.Regex.{Language, anchored, match_all, matches-Language}
use qervan_ai.Types.{
  AgentMessage, source_ip_pattern, principal_pattern, audit_metadata_errors,
  security_context_errors, payload_fits, agent_message_errors,
}
use qervan_ai.Types.Valid.{ValidSecurity, security_context_errors-nil}

pub record ValidMessage {V : Type 0} (is_decimal : ℕ → Bool) (size : List (Text × V) → ℕ)
    (m : AgentMessage V) : Type 0 where
  pub security : ValidSecurity m.security
  pub principal : Language (anchored principal_pattern) m.audit.principal
  pub source_ip : Language (anchored (source_ip_pattern is_decimal)) m.audit.source_ip
  pub payload : (m.payload ≡ []) ⊎ (size m.payload ≤ 102400)

module _ {V : Type 0} (is_decimal : ℕ → Bool) (size : List (Text × V) → ℕ) where
  payload_fits_iff :
      (p : List (Text × V))
      → (payload_fits is_decimal size p ≡ true) ↔ ((p ≡ []) ⊎ (size p ≤ 102400))
  unfolding payload_fits
  payload_fits_iff [] = ((λ h. inl refl), (λ h. refl))
  payload_fits_iff (x ∷ xs) = (
    (λ h. inr (ground (arith, h))),
    (λ h. elim h [ inl e ↦ cc | inr small ↦ ground (arith, small) ]),
  )

  module _ (m : AgentMessage V) where
    agent_message_errors-nil :
        (agent_message_errors is_decimal size m ≡ []) ↔ ValidMessage is_decimal size m
    unfolding agent_message_errors audit_metadata_errors
    agent_message_errors-nil =
        let fits = refuse_unless (payload_fits is_decimal size m.payload) "__root__" in
        let source = match_all (source_ip_pattern is_decimal) m.audit.source_ip in
        let name = match_all principal_pattern m.audit.principal in
        let security =
          append-nil_iff (security_context_errors m.security)
            (audit_metadata_errors is_decimal m.audit ++ fits) in
        let audit = append-nil_iff (audit_metadata_errors is_decimal m.audit) fits in
        let principal = refuse_unless-nil name "principal" (refuse_unless source "source_ip") in
        let source_ip = refuse_unless-last source "source_ip" in
        let root = refuse_unless-last (payload_fits is_decimal size m.payload) "__root__" in
        let valid = security_context_errors-nil m.security in
        let small = payload_fits_iff m.payload in
        let principal_text = matches-Language (anchored principal_pattern) m.audit.principal in
        let source_text =
          matches-Language (anchored (source_ip_pattern is_decimal)) m.audit.source_ip in
        (
          (λ h.
              let (a, h1) = security.0 h in
              let (b, h2) = audit.0 h1 in
              let (d, h3) = principal.0 b in
              record {
                security = valid.0 a;
                principal = principal_text.0 d;
                source_ip = source_text.0 (source_ip.0 h3);
                payload = small.0 (root.0 h2);
              }),
          (λ v. security.1 (
            valid.1 v.security,
            audit.1 (
              principal.1 (principal_text.1 v.principal, source_ip.1 (source_text.1 v.source_ip)),
              root.1 (small.1 v.payload),
            ),
          )),
        )

    -- AgentMessage accepts its fields exactly if the security context has a key version from 1 to 65535 and no
    -- certificate chain or one of 1 to 5 items, the principal and the source address are texts of their patterns
    -- (with at most a newline after them), and the payload is empty or its text has at most
    -- 102400 characters.
    pub agent_message_iff :
        (build (agent_message_errors is_decimal size) m ≡ ok m) ↔ ValidMessage is_decimal size m
    agent_message_iff =
        let built = build-ok (agent_message_errors is_decimal size) m in
        (
          (λ h. agent_message_errors-nil.0 (built.0 h)),
          (λ v. built.1 (agent_message_errors-nil.1 v)),
        )

-- ===== src/Types.antt =====
-- developer_experience/sdk/python/nuzon/types.py: the pydantic models.
-- A model is a record of the values of its fields, already of the fields' types: the coercions of pydantic are
-- not modelled. A UUID and a datetime are numbers, a text is a list of code points. Building a model
-- checks every field, and gives the names of those that fail, in order.
pub mod Valid
pub mod Config
pub mod Message
pub mod Deployment
pub mod Responses
mod Examples
use qervan_ai.Common.Fields.{refuse_unless, in_bounds, sized, sized_if_given}
use qervan_ai.Common.{
  ℕ, Bool, true, false, not, ◌&&◌, ◌||◌, String, List, [], ◌∷◌, ◌++◌, Option, none, some, Result,
  ok, err, Dict, if◌then◌else◌, Text, codes, text_eq, contains_text, length, leb, ltb, every,
}
use qervan_ai.Common.Int.{ℤ, pos, ltb_ℤ}
use qervan_ai.Common.Real.{Real}
use qervan_ai.Common.Regex.{
  Regex, set, seq, plus, optional, char, between, in_range, is_alnum, is_word_or_dash, match_all,
}

abbrev pub Uuid : Type 0
Uuid = ℕ

abbrev pub Time : Type 0
Time = ℤ

pub data AgentState : Type 0 where
  bootstrapping active standby maintenance decommissioned : AgentState

pub data ComplianceStandard : Type 0 where
  gdpr hipaa pci_dss soc2 iso27001 : ComplianceStandard

pub data MessageType : Type 0 where
  request response error heartbeat broadcast : MessageType

pub data EncryptionAlgorithm : Type 0 where
  aes256_gcm chacha20_poly1305 kyber768 ml_kem_1024 : EncryptionAlgorithm

pub record SecurityContext : Type 0 where
  pub algorithm : EncryptionAlgorithm
  pub key_version : ℤ
  pub certificate_chain : Option (List Text)

unfoldable pub security_context_errors : SecurityContext → List String
security_context_errors s =
    refuse_unless (in_bounds 1 65535 s.key_version) "key_version"
    ++ refuse_unless (sized_if_given 1 5 s.certificate_chain) "certificate_chain"

-- ^[a-zA-Z0-9_-]{1,255}$ and {1,63}
abbrev pub principal_pattern : Regex
principal_pattern = between 1 254 (set is_word_or_dash)

abbrev pub component_pattern : Regex
component_pattern = between 1 62 (set is_word_or_dash)

-- ^[A-Z0-9_]{1,32}$
abbrev pub code_pattern : Regex
code_pattern =
    between 1 31 (set (λ c. in_range b'A' b'Z' c || in_range b'0' b'9' c || in_range b'_' b'_' c))

pub record AuditMetadata : Type 0 where
  pub timestamp : Time
  pub principal : Text
  pub source_ip : Text
  pub correlation_id : Uuid

pub record ErrorDetail : Type 0 where
  pub error_code : Text
  pub message : Text
  pub stack_trace : Option (List Text)
  pub remediation : Option Text

unfoldable pub error_detail_errors : ErrorDetail → List String
error_detail_errors e =
    refuse_unless (match_all code_pattern e.error_code) "code"
    ++ refuse_unless (sized 1 2048 e.message) "message"

pub record AgentConfig (F : Type 0) : Type 0 where
  pub id : Uuid
  pub name : Text
  pub version : Text
  pub compliance : List ComplianceStandard
  pub security : SecurityContext
  pub performance : List (Text × F)

pub record AgentMessage (V : Type 0) : Type 0 where
  pub message_id : Uuid
  pub type : MessageType
  pub payload : List (Text × V)
  pub context : List (Text × V)
  pub security : SecurityContext
  pub audit : AuditMetadata

abbrev pub allowed : List Text
allowed = codes "cpu_threshold" ∷ codes "memory_threshold" ∷ codes "network_latency" ∷ []

-- confloat(ge=0.0, le=1.0)
abbrev pub is_share : {F : Type 0} → Real F → F → F → Bool
is_share r one v = not (r.lt v r.zero_r) && not (r.lt one v)

-- validate_performance_keys runs only where the field's own type accepts the value.
unfoldable pub performance_ok : {F : Type 0} → Real F → F → List (Text × F) → Bool
unfolding every
performance_ok {F} r one performance =
    every (λ (entry : Text × F). is_share r one entry.1) performance
    && every (λ (entry : Text × F). contains_text allowed entry.0) performance

-- `\d` is any decimal digit of Unicode.
module _ (is_decimal : ℕ → Bool) where
  -- ^\d{1,3}\.\d{1,3}\.\d{1,3}\.\d{1,3}$
  abbrev pub source_ip_pattern : Regex
  source_ip_pattern =
      let group = between 1 2 (set is_decimal) in
      seq group (seq (char b'.') (seq group (seq (char b'.') (seq group (seq (char b'.') group)))))

  unfoldable pub audit_metadata_errors : AuditMetadata → List String
  audit_metadata_errors a =
      refuse_unless (match_all principal_pattern a.principal) "principal"
      ++ refuse_unless (match_all source_ip_pattern a.source_ip) "source_ip"

  -- ^\d+\.\d+\.\d+(-[a-zA-Z0-9]+)?$
  abbrev pub version_pattern : Regex
  version_pattern =
      let digits = plus (set is_decimal) in
      seq digits (
        seq (char b'.') (
          seq digits
            (seq (char b'.') (seq digits (optional (seq (char b'-') (plus (set is_alnum))))))))

  module _ {F : Type 0} (r : Real F) (one : F) where
    unfoldable pub agent_config_errors : AgentConfig F → List String
    unfolding security_context_errors performance_ok
    agent_config_errors c =
        refuse_unless (sized 1 255 c.name) "name"
        ++ (refuse_unless (match_all version_pattern c.version) "version"
            ++ (refuse_unless (sized 1 5 c.compliance) "compliance"
                ++ (security_context_errors c.security
                    ++ refuse_unless (performance_ok r one c.performance) "performance")))

  -- `size` gives len(str(payload)).
  module _ {V : Type 0} (size : List (Text × V) → ℕ) where
    -- `payload and len(str(payload)) > 102400`
    unfoldable pub payload_fits : List (Text × V) → Bool
    payload_fits [] = true
    payload_fits (entry ∷ payload) = not (ltb 102400 (size (entry ∷ payload)))

    unfoldable pub agent_message_errors : AgentMessage V → List String
    unfolding security_context_errors audit_metadata_errors payload_fits
    agent_message_errors m =
        security_context_errors m.security
        ++ (audit_metadata_errors m.audit ++ refuse_unless (payload_fits m.payload) "__root__")

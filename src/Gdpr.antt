-- ===== src/Gdpr.antt =====
-- security/audit/gdpr_check.py: GDPRComplianceEngine.
-- Texts are lists of code points. A datetime is its local time in microseconds since 0001-01-01 with
-- its UTC offset, `none` for a naive one. Fernet, HMAC-SHA256 and the encodings are the parameter `Crypto`.
pub mod Checks
pub mod Verify
pub mod Audit
mod Examples
use qervan_ai.Common.{
  ℕ, Bool, true, false, not, ◌&&◌, ◌≡◌, String, List, [], ◌∷◌, ◌++◌, Option, none, some, Result, ok,
  err, ◌>>=◌, Text, text_eq, contains_text, is_ascii, length, leb, ◌==◌, if◌then◌else◌,
}
use qervan_ai.Common.Int.{ℤ, pos, ◌+ℤ◌, neg_ℤ, ltb_ℤ}

abbrev pub Bytes : Type 0
Bytes = List ℕ

pub data GdprError : Type 0 where
  value_error : (message : String) → GdprError
  overflow_error type_error unicode_error : GdprError

-- Fernet(key) with its `decrypt`, hmac.new(key, payload, sha256).hexdigest(), str.encode() and
-- isoformat(). A digest is hexadecimal.
pub record Crypto : Type 1 where
  pub fernet : Bytes → Option (Bytes → Option Bytes)
  pub hexdigest : Bytes → Bytes → Text
  pub encode : Text → Option Bytes
  pub isoformat : ℤ → Option ℤ → Text
  pub hexdigest-ascii : (key payload : Bytes) → is_ascii (hexdigest key payload) ≡ true

pub record DateTime : Type 0 where
  pub local : ℤ
  pub utcoffset : Option ℤ

pub record GdprConfig : Type 0 where
  pub max_data_retention : ℤ
  pub required_consents : List Text
  pub encryption_key : Bytes
  pub allowed_data_types : List Text
  pub hmac_secret : Option Bytes

pub record GdprDataRecord : Type 0 where
  pub user_id : Text
  pub data_type : Text
  pub raw_content : Bytes
  pub collected_at : DateTime
  pub consent_ids : List Text
  pub retention_end : DateTime
  pub source_system : Text
  pub encrypted : Bool
  pub signature : Option Text

pub record Engine : Type 0 where
  pub config : GdprConfig
  pub cipher : Bytes → Option Bytes

-- Whether a text or a byte string that may be None counts as true.
abbrev pub is_given : Option (List ℕ) → Bool
is_given none = false
is_given (some []) = false
is_given (some (x ∷ xs)) = true

-- all(len(c) >= 4 for c in required_consents)
unfoldable pub all_long : List Text → Bool
all_long [] = true
all_long (c ∷ cs) = leb 4 (length c) && all_long cs

unfoldable pub validate_initialization : GdprConfig → Result GdprError (Unit {0})
unfolding all_long
validate_initialization config =
    if not (length config.encryption_key == 44)
    then err (value_error "Invalid encryption key length")
    else if not (all_long config.required_consents)
    then err (value_error "Invalid consent format")
    else ok tt

-- GDPRComplianceEngine.__init__
unfoldable pub new_engine : Crypto → GdprConfig → Result GdprError Engine
unfolding validate_initialization
new_engine crypto config = elim (crypto.fernet config.encryption_key) [
  | none ↦ err (value_error "Fernet key must be 32 url-safe base64-encoded bytes.")
  | some cipher ↦
      validate_initialization config >>= λ _. ok (record { config = config; cipher = cipher })
]

-- all(consent in record.consent_ids for consent in required_consents)
unfoldable pub validate_consents : List Text → List Text → Bool
validate_consents [] given = true
validate_consents (c ∷ cs) given = contains_text given c && validate_consents cs given

-- datetime.max
abbrev pub datetime_max : ℤ
datetime_max = pos 315537897599999999

-- collected_at + max_data_retention, which keeps the offset: a `tzinfo` is taken to have one offset for all dates.
unfoldable pub add_timedelta : DateTime → ℤ → Result GdprError DateTime
add_timedelta d delta =
    let moved = d.local +ℤ delta in
    if ltb_ℤ moved (pos 0)
    then err overflow_error
    else if ltb_ℤ datetime_max moved
    then err overflow_error
    else ok (record d { local = moved })

-- a <= b: datetimes are compared in UTC, and a naive one with none but naive ones.
unfoldable pub le_datetime : DateTime → DateTime → Result GdprError Bool
le_datetime a b = elim a.utcoffset [
  | none ↦ elim b.utcoffset [ none ↦ ok (not (ltb_ℤ b.local a.local)) | some _ ↦ err type_error ]
  | some p ↦ elim b.utcoffset [
    | none ↦ err type_error
    | some q ↦ ok (not (ltb_ℤ (b.local +ℤ neg_ℤ q) (a.local +ℤ neg_ℤ p)))
  ]
]

unfoldable pub validate_data_retention : GdprConfig → GdprDataRecord → Result GdprError Bool
unfolding add_timedelta le_datetime
validate_data_retention config r =
    add_timedelta r.collected_at config.max_data_retention >>= λ max_end_date.
    le_datetime r.retention_end max_end_date

unfoldable pub validate_encryption : Engine → GdprDataRecord → Bool
validate_encryption engine r =
    if not r.encrypted
    then false
    else elim (engine.cipher r.raw_content) [ none ↦ false | some _ ↦ true ]

-- hmac.compare_digest takes no text that is not ASCII.
unfoldable pub compare_digest : Text → Text → Result GdprError Bool
compare_digest a b = if is_ascii a && is_ascii b then ok (text_eq a b) else err type_error

unfoldable pub validate_hmac : Crypto → Option Bytes → Option Text → Bytes → Result GdprError Bool
unfolding compare_digest
validate_hmac crypto (some (k ∷ key)) (some (s ∷ signature)) content =
    compare_digest (crypto.hexdigest (k ∷ key) content) (s ∷ signature)
validate_hmac crypto _ _ content = ok true

-- if not passed: violations.append(message)
unfoldable pub append_unless : Bool → String → List String → List String
append_unless true message violations = violations
append_unless false message violations = violations ++ message ∷ []

abbrev pub is_empty : List String → Bool
is_empty [] = true
is_empty (x ∷ xs) = false

unfoldable pub verify_compliance :
    Crypto → Engine → GdprDataRecord → Result GdprError (Bool × List String)
unfolding validate_consents validate_data_retention validate_encryption validate_hmac append_unless
verify_compliance crypto engine r = do
  let v1 =
      append_unless (validate_consents engine.config.required_consents r.consent_ids)
        "Missing required consents" []
  retained ← validate_data_retention engine.config r
  let v2 = append_unless retained "Invalid data retention period" v1
  let v3 =
      append_unless (contains_text engine.config.allowed_data_types r.data_type)
        "Data minimization violation" v2
  let v4 = append_unless (validate_encryption engine r) "Encryption requirement failed" v3
  authentic ← validate_hmac crypto engine.config.hmac_secret r.signature r.raw_content
  let v5 = append_unless authentic "Data integrity verification failed" v4
  ok (is_empty v5, v5)

pub record AuditLog : Type 0 where
  pub timestamp : Text
  pub user_id : Text
  pub data_type : Text
  pub compliant : Bool
  pub action : String
  pub system : String
  pub audit_signature : Text

-- f"{user_id}|{data_type}|{collected_at.isoformat()}"
unfoldable pub audit_payload : Crypto → GdprDataRecord → Text
audit_payload crypto r =
    r.user_id
    ++ (124 ∷ r.data_type)
    ++ (124 ∷ crypto.isoformat r.collected_at.local r.collected_at.utcoffset)

-- hmac_secret or encryption_key
unfoldable pub audit_key : GdprConfig → Bytes
audit_key config = elim config.hmac_secret [
  | none ↦ config.encryption_key
  | some [] ↦ config.encryption_key
  | some (k ∷ key) ↦ k ∷ key
]

unfoldable pub generate_audit_signature : Crypto → Engine → GdprDataRecord → Result GdprError Text
unfolding audit_payload audit_key
generate_audit_signature crypto engine r = elim (crypto.encode (audit_payload crypto r)) [
  | none ↦ err unicode_error
  | some payload ↦ ok (crypto.hexdigest (audit_key engine.config) payload)
]

-- `now` is datetime.now(pytz.utc).isoformat().
unfoldable pub generate_audit_log :
    Crypto → Text → Engine → GdprDataRecord → Bool → Result GdprError AuditLog
unfolding generate_audit_signature
generate_audit_log crypto now engine r compliant =
    generate_audit_signature crypto engine r >>= λ signature. ok (record {
      timestamp = now;
      user_id = r.user_id;
      data_type = r.data_type;
      compliant = compliant;
      action = "GDPR_VERIFICATION";
      system = "nuzon-ai-core";
      audit_signature = signature;
    })

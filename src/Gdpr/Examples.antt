-- ===== src/Gdpr/Examples.antt =====
-- An engine and a record that pass every check, and the theorems at these values.
use qervan_ai.Gdpr.Audit.{IsLong, new_engine_iff}
use qervan_ai.Common.{All, length}
use qervan_ai.Common.{
  ℕ, List, String, zero, suc, true, false, ◌≡◌, refl, ◌↔◌, [], ◌∷◌, Option, none, some, ok, Text,
  contains_str, Memᴰ,
}
use qervan_ai.Common.Int.{pos, ◌+ℤ◌}
use qervan_ai.Gdpr.{
  Bytes, Crypto, DateTime, GdprConfig, GdprDataRecord, Engine, new_engine, verify_compliance,
  generate_audit_log,
}
use qervan_ai.Gdpr.Checks.{Consented, Retained, Encrypted, Authentic}
use qervan_ai.Gdpr.Verify.{
  IsCompliant, verify_compliance_iff, verify_compliance_reports, verify_compliance-unsigned,
}
use qervan_ai.Gdpr.Audit.{signature_of, generate_audit_log-ambiguous}

abbrev decrypt : Bytes → Option Bytes
decrypt [] = none
decrypt (x ∷ xs) = some xs

abbrev toy : Crypto
toy = record {
  fernet = λ key. some decrypt;
  hexdigest = λ key payload. 97 ∷ 98 ∷ [];
  encode = λ t. some t;
  isoformat = λ local offset. 48 ∷ [];
  hexdigest-ascii = λ key payload. refl;
}

abbrev filled : ℕ → Bytes
filled zero = []
filled (suc n) = 7 ∷ filled n

abbrev consent : Text
consent = 1 ∷ 2 ∷ 3 ∷ 4 ∷ []

abbrev config : GdprConfig
config = record {
  max_data_retention = pos 100;
  required_consents = consent ∷ [];
  encryption_key = filled 44;
  allowed_data_types = (5 ∷ []) ∷ [];
  hmac_secret = some (9 ∷ []);
}

abbrev engine : Engine
engine = record { config = config; cipher = decrypt }

abbrev at : ℕ → DateTime
at n = record { local = pos n; utcoffset = some (pos 0) }

abbrev sample : GdprDataRecord
sample = record {
  user_id = 6 ∷ [];
  data_type = 5 ∷ [];
  raw_content = 3 ∷ 3 ∷ [];
  collected_at = at 1000;
  consent_ids = (8 ∷ []) ∷ consent ∷ [];
  retention_end = at 1100;
  source_system = [];
  encrypted = true;
  signature = some (97 ∷ 98 ∷ []);
}

abbrev kept_long : GdprDataRecord
kept_long = record sample { retention_end = at 1101; encrypted = false }

abbrev violations : List String
violations = "Invalid data retention period" ∷ "Encryption requirement failed" ∷ []

sample_passes : verify_compliance toy engine sample ≡ ok (true, [])
unfolding verify_compliance ◌+ℤ◌
sample_passes = refl

kept_long_fails : verify_compliance toy engine kept_long ≡ ok (false, violations)
unfolding verify_compliance ◌+ℤ◌
kept_long_fails = refl

engine_built : new_engine toy config ≡ ok engine
unfolding new_engine
engine_built = refl

verify_compliance_iff_example :
    (verify_compliance toy engine sample ≡ ok (true, [])) ↔ IsCompliant toy engine sample
verify_compliance_iff_example = verify_compliance_iff toy engine sample

verify_compliance_reports_example :
    ((false ≡ true) ↔ (violations ≡ []))
    × ((contains_str violations "Missing required consents" ≡ false) ↔ Consented config kept_long)
    × ((contains_str violations "Invalid data retention period" ≡ false)
        ↔ Retained config kept_long)
    × ((contains_str violations "Data minimization violation" ≡ false)
        ↔ Memᴰ kept_long.data_type config.allowed_data_types)
    × ((contains_str violations "Encryption requirement failed" ≡ false)
        ↔ Encrypted engine kept_long)
    × ((contains_str violations "Data integrity verification failed" ≡ false)
        ↔ Authentic toy config kept_long)
verify_compliance_reports_example =
    verify_compliance_reports toy engine kept_long false violations kept_long_fails

verify_compliance-unsigned_example :
    verify_compliance toy engine (record sample { raw_content = 4 ∷ 4 ∷ []; signature = none })
    ≡ ok (true, [])
verify_compliance-unsigned_example =
    verify_compliance-unsigned toy engine sample (4 ∷ 4 ∷ []) (4 ∷ []) sample_passes refl

generate_audit_log-ambiguous_example :
    signature_of (
      generate_audit_log toy
        (1 ∷ [])
        engine
        (record sample { user_id = 65 ∷ []; data_type = 66 ∷ 124 ∷ 67 ∷ [] })
        true)
    ≡ signature_of (
        generate_audit_log toy
          (2 ∷ [])
          engine
          (record sample { user_id = 65 ∷ 124 ∷ 66 ∷ []; data_type = 67 ∷ [] })
          false)
generate_audit_log-ambiguous_example =
    generate_audit_log-ambiguous toy engine sample (65 ∷ []) (66 ∷ []) (67 ∷ []) (1 ∷ []) (2 ∷ [])
      true false

new_engine_iff_example : (new_engine toy config ≡ ok engine) ↔ (
    (toy.fernet (filled 44) ≡ some decrypt)
    × (engine.config ≡ config)
    × (length (filled 44) ≡ 44)
    × All IsLong (consent ∷ []))
new_engine_iff_example = new_engine_iff toy config engine

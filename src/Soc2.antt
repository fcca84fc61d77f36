-- ===== src/Soc2.antt =====
-- enterprise/compliance_as_code/soc2_monitor.py: SOC2Monitor.
-- A method or a module's name that the file does not have is an argument that is `none`; what the cloud
-- services answer is behind the methods that ask them. The clock is a parameter.
pub mod Blind
mod Examples
use qervan_ai.Common.{
  ℕ, Bool, true, false, String, List, [], ◌∷◌, ◌++◌, Option, none, some, Result, ok, err, ◌>>=◌,
  Dict, insert, if◌then◌else◌,
}

pub data MonitorError : Type 0 where
  name_error attribute_error file_not_found validation_error service_error : MonitorError

pub record ComplianceConfig (F : Type 0) : Type 0 where
  pub aws_regions : List String
  pub required_encryption : List String
  pub max_retention_days : ℕ
  pub backup_frequency_hours : ℕ
  pub alert_thresholds : Dict F

-- The defaults; `sla` and `latency` are 99.95 and 2000.
abbrev pub default_config : {F : Type 0} (sla latency : F) → ComplianceConfig F
default_config sla latency = record {
  aws_regions = "us-west-2" ∷ [];
  required_encryption = "AES-256" ∷ "TLS_ECDHE_RSA_WITH_AES_256_GCM_SHA384" ∷ [];
  max_retention_days = 365;
  backup_frequency_hours = 24;
  alert_thresholds = ("availability", sla) ∷ ("latency_p99", latency) ∷ [];
}

pub record RegionAudit : Type 0 where
  pub unencrypted_volumes : List String
  pub s3_bucket_policies : List String
  pub iam_rotations : List String

-- The audits of Azure and of the premises, and the frame of the access logs, are empty.
pub record Evidence : Type 0 where
  pub aws : Dict RegionAudit

abbrev pub Controls : Type 0
Controls = Dict Bool

pub record Report : Type 0 where
  pub timestamp : String
  pub compliance_status : Controls
  pub recommendations : List String

-- The methods that are called and defined nowhere.
pub record Methods : Type 0 where
  pub find_unencrypted_ebs : Option (String → Result MonitorError (List String))
  pub audit_s3_buckets : Option (String → Result MonitorError (List String))
  pub check_iam_key_rotation : Option (String → Result MonitorError (List String))
  pub verify_backups : Option (Result MonitorError Bool)
  pub check_uptime_compliance : Option (Result MonitorError Bool)
  pub generate_recommendations : Option (Controls → Result MonitorError (List String))

-- A call of a method.
abbrev pub call : {A B : Type 0} → Option (A → Result MonitorError B) → A → Result MonitorError B
call none a = err attribute_error
call (some f) a = f a

abbrev pub ask : {B : Type 0} → Option (Result MonitorError B) → Result MonitorError B
ask none = err attribute_error
ask (some answer) = answer

-- __init__: what _load_config gives or raises; then os.getenv, where the name `os` is found.
unfoldable pub new_monitor :
    {F : Type 0}
    → Result MonitorError (ComplianceConfig F)
    → (getenv : Option (String → Option String)) → Result MonitorError (ComplianceConfig F)
new_monitor (err e) getenv = err e
new_monitor (ok config) none = err name_error
new_monitor (ok config) (some getenv) = ok config

module _ (m : Methods) where
  -- _audit_aws, on the regions that are left.
  unfoldable pub audit_aws : List String → Dict RegionAudit → Result MonitorError (Dict RegionAudit)
  audit_aws [] results = ok results
  audit_aws (region ∷ regions) results = do
    volumes ← call m.find_unencrypted_ebs region
    policies ← call m.audit_s3_buckets region
    rotations ← call m.check_iam_key_rotation region
    audit_aws regions (
        insert results region (record {
          unencrypted_volumes = volumes;
          s3_bucket_policies = policies;
          iam_rotations = rotations;
        }))

  unfoldable pub collect_evidence : List String → Result MonitorError Evidence
  unfolding audit_aws
  collect_evidence aws_regions = audit_aws aws_regions [] >>= λ aws. ok (record { aws = aws })

  abbrev pub validate_encryption : Evidence → Bool
  validate_encryption evidence = true

  abbrev pub check_jit_access : Evidence → Bool
  check_jit_access evidence = true

  unfoldable pub check_controls : Evidence → Result MonitorError Controls
  check_controls evidence = do
    backups ← ask m.verify_backups
    uptime ← ask m.check_uptime_compliance
    ok (
        ("encryption_standards", validate_encryption evidence)
        ∷ ("access_controls", check_jit_access evidence)
        ∷ ("backup_integrity", backups)
        ∷ ("uptime_sla", uptime)
        ∷ [])

  unfoldable pub generate_report : (now : String) → Controls → Result MonitorError Report
  generate_report now results = do
    recommendations ← call m.generate_recommendations results
    ok (record { timestamp = now; compliance_status = results; recommendations = recommendations })

  abbrev pub critical_findings : Report → Bool
  critical_findings report = false

  -- On the reports posted to Slack so far; the e-mail has no body.
  unfoldable pub alert_on_anomalies : Report → List Report → List Report
  alert_on_anomalies report posted =
      if critical_findings report then posted ++ report ∷ [] else posted

  -- The script: the report, and what is posted.
  unfoldable pub monitor :
      List String → (now : String) → List Report → Result MonitorError Report × List Report
  unfolding collect_evidence check_controls generate_report alert_on_anomalies
  monitor aws_regions now posted =
      let outcome = (do
        evidence ← collect_evidence aws_regions
        results ← check_controls evidence
        generate_report now results) in
      (outcome, elim outcome [ err e ↦ posted | ok report ↦ alert_on_anomalies report posted ])

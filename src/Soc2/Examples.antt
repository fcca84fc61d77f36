-- ===== src/Soc2/Examples.antt =====
-- Tests and witnesses: a cloud in order, and one with a volume that is not encrypted.
use qervan_ai.Common.{true, String, List, [], ◌∷◌, none, some, Result, ok, err, ◌≡◌, refl, insert}
use qervan_ai.Soc2.{
  MonitorError, attribute_error, name_error, Methods, Evidence, Report, collect_evidence, audit_aws,
  monitor, new_monitor, default_config, ComplianceConfig,
}
use qervan_ai.Soc2.Blind.{monitor_blind}

abbrev methods_of : List String → Methods
methods_of volumes = record {
  find_unencrypted_ebs = some (λ region. ok volumes);
  audit_s3_buckets = some (λ region. ok []);
  check_iam_key_rotation = some (λ region. ok []);
  verify_backups = some (ok true);
  check_uptime_compliance = some (ok true);
  generate_recommendations = some (λ controls. ok []);
}

abbrev in_order : Methods
in_order = methods_of []

abbrev unencrypted : Methods
unencrypted = methods_of ("vol-1" ∷ [])

-- What the file has.
abbrev as_written : Methods
as_written = record {
  find_unencrypted_ebs = none;
  audit_s3_buckets = none;
  check_iam_key_rotation = none;
  verify_backups = none;
  check_uptime_compliance = none;
  generate_recommendations = none;
}

abbrev west : List String
west = "us-west-2" ∷ []

abbrev evidence_with : List String → Evidence
evidence_with volumes = record {
  aws =
      (
        "us-west-2",
        record { unencrypted_volumes = volumes; s3_bucket_policies = []; iam_rotations = [] },
      )
      ∷ [];
}

audit_in_order : collect_evidence in_order west ≡ ok (evidence_with [])
unfolding collect_evidence audit_aws insert
audit_in_order = refl

audit_with_volume : collect_evidence unencrypted west ≡ ok (evidence_with ("vol-1" ∷ []))
unfolding collect_evidence audit_aws insert
audit_with_volume = refl

abbrev no_report : Result MonitorError Report × List Report
no_report = (err attribute_error, [])

written_run : monitor as_written west "now" [] ≡ no_report
unfolding monitor collect_evidence audit_aws
written_run = refl

abbrev no_monitor : Result MonitorError (ComplianceConfig String)
no_monitor = err name_error

construction : new_monitor (ok (default_config "99.95" "2000")) none ≡ no_monitor
unfolding new_monitor
construction = refl

monitor_blind_example :
    ((monitor in_order west "now" []).0 ≡ (monitor unencrypted west "now" []).0)
    × ((monitor in_order west "now" []).1 ≡ [])
    × ((monitor unencrypted west "now" []).1 ≡ [])
monitor_blind_example =
    monitor_blind in_order unencrypted west west "now" [] refl refl refl audit_in_order
      audit_with_volume

-- ===== src/Types/Responses.antt =====
-- developer_experience/sdk/python/nuzon/types.py: the models of responses and reports.
use qervan_ai.Common.Fields.{refuse_unless, at_least}
use qervan_ai.Common.{
  ℕ, Bool, not, ◌&&◌, String, List, [], ◌∷◌, ◌++◌, Option, none, some, Result, ok, err,
  if◌then◌else◌, Text, length, leb, every,
}
use qervan_ai.Common.Int.{ℤ}
use qervan_ai.Common.Real.{Real}
use qervan_ai.Common.Regex.{match_all}
use qervan_ai.Types.{
  Time, component_pattern, ErrorDetail, error_detail_errors, AuditMetadata, audit_metadata_errors,
}

pub data HealthStatus : Type 0 where
  status_ok status_warning status_critical : HealthStatus

pub record HealthCheckResult (V : Type 0) : Type 0 where
  pub component : Text
  pub status : HealthStatus
  pub metrics : List (Text × V)
  pub last_checked : Time

unfoldable pub health_check_errors : {V : Type 0} → HealthCheckResult V → List String
health_check_errors h = refuse_unless (match_all component_pattern h.component) "component"

pub record ApiResponse (V : Type 0) : Type 0 where
  pub content : Option V
  pub error_detail : Option ErrorDetail
  pub meta : List (Text × V)

unfoldable pub api_response_errors : {V : Type 0} → ApiResponse V → List String
unfolding error_detail_errors
api_response_errors a = elim a.error_detail [ none ↦ [] | some e ↦ error_detail_errors e ]

pub record AuditReport : Type 0 where
  pub period_start : Time
  pub period_end : Time
  pub events : List AuditMetadata
  pub violations : ℤ
  pub certified : Bool

pub record ClusterTelemetry (F : Type 0) : Type 0 where
  pub telemetry_time : Time
  pub nodes : ℤ
  pub active_agents : ℤ
  pub resource_utilization : List (Text × F)

unfoldable pub events_errors : (ℕ → Bool) → List AuditMetadata → List String
unfolding audit_metadata_errors
events_errors is_decimal [] = []
events_errors is_decimal (e ∷ events) =
    audit_metadata_errors is_decimal e ++ events_errors is_decimal events

unfoldable pub audit_report_errors : (ℕ → Bool) → AuditReport → List String
unfolding events_errors
audit_report_errors is_decimal a =
    events_errors is_decimal a.events ++ refuse_unless (at_least 0 a.violations) "violations"

unfoldable pub cluster_telemetry_errors : {F : Type 0} → Real F → ClusterTelemetry F → List String
unfolding every
cluster_telemetry_errors {F} r t =
    refuse_unless (at_least 1 t.nodes) "nodes"
    ++ (refuse_unless (at_least 0 t.active_agents) "active_agents"
        ++ refuse_unless
            (every (λ (entry : Text × F). not (r.lt entry.1 r.zero_r)) t.resource_utilization)
            "resource_utilization")

-- validate_encryption_context
unfoldable pub validate_encryption_context : List (Text × Text) → Result String (Unit {0})
unfolding every
validate_encryption_context ctx =
    if every (λ (entry : Text × Text). leb (length entry.0) 64 && leb (length entry.1) 512) ctx
    then ok tt
    else err "Encryption context exceeds size limits"

-- ===== src/Types/Examples.antt =====
-- Tests and witnesses on configurations, messages and templates.
use qervan_ai.Types.Message.{ValidMessage, agent_message_iff}
use qervan_ai.Types.Deployment.{ValidDeployment, deployment_spec_iff}
use qervan_ai.Types.{AgentMessage, MessageType, agent_message_errors}
use qervan_ai.Common.{length}
use qervan_ai.Common.Fields.{build}
use qervan_ai.Common.{ℕ, Bool, List, [], ◌∷◌, none, ok, ◌≡◌, refl, ◌↔◌, Text, codes, every, String}
use qervan_ai.Common.Int.{pos}
use qervan_ai.Common.Real.{whole}
use qervan_ai.Common.Regex.{in_range, nullable, matches, after}
use qervan_ai.Types.{
  SecurityContext, AgentConfig, AuditMetadata, EncryptionAlgorithm, ComplianceStandard,
  security_context_errors, performance_ok, agent_config_errors, audit_metadata_errors,
}
use qervan_ai.Types.Config.{agent_config_iff, ValidConfig}
use qervan_ai.Types.Deployment.{DeploymentSpec, deployment_spec_errors}

abbrev ascii_digit : ℕ → Bool
ascii_digit = in_range b'0' b'9'

abbrev key_one : SecurityContext
key_one = record {
  algorithm = EncryptionAlgorithm.kyber768;
  key_version = pos 1;
  certificate_chain = none;
}

abbrev planner : AgentConfig ℕ
planner = record {
  id = 7;
  name = codes "planner";
  version = codes "1.2.10-rc1";
  compliance = ComplianceStandard.gdpr ∷ [];
  security = key_one;
  performance = (codes "cpu_threshold", 1) ∷ [];
}

abbrev audit_of : Text → AuditMetadata
audit_of address = record {
  timestamp = pos 0;
  principal = codes "ops_team-1";
  source_ip = address;
  correlation_id = 3;
}

config_accepted : build (agent_config_errors ascii_digit whole 1) planner ≡ ok planner
unfolding build agent_config_errors security_context_errors performance_ok every nullable matches
    after
config_accepted = refl

-- No address of the Internet has a byte of 999.
abbrev no_errors : List String
no_errors = []

wide_address : audit_metadata_errors ascii_digit (audit_of (codes "999.999.999.999")) ≡ no_errors
unfolding audit_metadata_errors nullable matches after
wide_address = refl

-- More replicas at least than at most.
abbrev crossed : DeploymentSpec
crossed = record {
  min_replicas = pos 1000;
  max_replicas = pos 1;
  scaling = pos 50 ∷ pos 80 ∷ [];
  availability_zones = [];
}

swapped_bounds_accepted : build deployment_spec_errors crossed ≡ ok crossed
unfolding build deployment_spec_errors every
swapped_bounds_accepted = refl

agent_config_iff_example :
    (build (agent_config_errors ascii_digit whole 1) planner ≡ ok planner)
    ↔ ValidConfig ascii_digit whole 1 planner
agent_config_iff_example = agent_config_iff ascii_digit whole 1 planner

abbrev message : AgentMessage ℕ
message = record {
  message_id = 1;
  type = MessageType.request;
  payload = (codes "task", 4) ∷ [];
  context = [];
  security = key_one;
  audit = audit_of (codes "10.0.0.1");
}

abbrev size_of : List (Text × ℕ) → ℕ
size_of payload = length payload

agent_message_iff_example :
    (build (agent_message_errors ascii_digit size_of) message ≡ ok message)
    ↔ ValidMessage ascii_digit size_of message
agent_message_iff_example = agent_message_iff ascii_digit size_of message

deployment_spec_iff_example :
    (build deployment_spec_errors crossed ≡ ok crossed) ↔ ValidDeployment crossed
deployment_spec_iff_example = deployment_spec_iff crossed

-- ===== src/Lib.antt =====
-- Verification library of Qervan-AI (the Python parts of the platform).
--
-- The platform is a set of loosely coupled components. Each module below models one of them; none
-- of them calls another in the source, so the modules share only `Common`.
--
-- * `Planner` models orchestration/symbolic/planner.py. Task nodes are objects that refer to one
--   another, so a graph is a heap (a list of nodes) and a reference an index. `Ancestors` has
--   TaskNode.get_ancestors and add_child, `Dag` has validate_dag, `Decompose` the methods
--   ANDNode.decompose and ORNode.decompose, `Evaluate` has PlanningGraph._evaluate_option, `Search` has
--   _ao_star_search and generate_plan, `Build` follows graphs through add_child calls, and `Draw` has
--   visualize (`Items` says what is drawn for a node). The modules
--   below each of these hold the proofs, `Examples` the tests.
--
-- * `Client` models developer_experience/sdk/python/nuzon/client.py: the hooks _sign_request and
-- _validate_response, and execute with its retries, as functions from the object's state to a result
-- and the next state. The server is a function from the number of a request to its reply. `Breaker`
-- is about the circuit breaker, `Config` about NuzonConfig, `Replies` about what a reply of
-- httpx gives, `Retry` about the three attempts, `Unsigned` about
-- the missing import. execute_async, whose hooks and client httpx runs, is not modelled.
--
-- * `Gdpr` models security/audit/gdpr_check.py, GDPRComplianceEngine: the five checks, verify_compliance
-- and the audit log. `Checks` has what each check decides, `Verify` the verdict, `Audit` the
-- construction and the signature. Fernet, HMAC and the encodings are the parameter `Crypto`.
--
-- * `Auction` models platform/market_mechanism/auction_engine/combinatorial.py: the checks of the bids,
-- the model for the solver, and the payments. `Bids` is about the checks, `Winners` about
-- the allocation. The solver of ortools is the parameter `Solver`; `IsSound` says what
-- the code relies on, and `Exhaustive` is a solver by exhaustion that has it.
--
-- * `Orchestrator` models core/cognition_engine/llm_orchestrator/mistral_integration.py,
-- MistralOrchestrator: `Outcomes` says how _execute_with_fallback can end, `Fallback` is
-- about that it does, `Route` about route_request. The
-- providers' clients are a function from the number of a call to its answer or exception.
--
-- * `Idoc` models integration/adapters/sap/idoc_adapter.py, IDocAdapter: the XML tree is a data type
-- (`Common.Xml`), the document a value of it. `Duplicates` is about _check_duplicates, `Mapping` about
-- _apply_mapping_template (and has its definitions), `Process` has process_idoc around the parsing, with `Parses` about the documents that
-- are taken and `Stages` about what it ends in, and
-- `Dispatch` __init__ and _dispatch_to_eds, with `Copies` about how often a document is delivered.
--
-- * `Replay` models the buffer, the agent's steps and the trainer's loops of
-- orchestration/neural/reinforcement/dqn.py: `Window` is about what the bounded buffer holds, `Steps` about how
-- long an agent steps, `Train` has act, train and evaluate (evaluate_episode, which has no bound in the code,
-- takes fuel), with `Ends` about how a training ends and `Blind` about what an evaluation depends on.
--
-- * `Types` models developer_experience/sdk/python/nuzon/types.py: the pydantic models as records, and for
-- each one the list of the fields that it refuses. `Config`, `Message` and `Deployment` say what is
-- accepted, over the languages of the patterns (`Common.Regex`); `Responses` has the models of responses.
--
-- * `Hybrid` models core/quantum_layer/crypto_agility/hybrid_schemes.py, HybridEncryptionEngine. Its
-- primitives are the parameter `Primitives`; `Base64` has the standard library's base64 and UTF-8,
-- `RoundTrip` is about the keys' serialisation, `Tags` about the MAC of encryption and decryption.
--
-- * `Federated` models services/edge_fabric/federated_learning/homomorphic.py: HEKeyManager,
-- EncryptedAggregator and HybridProtocol over the parameter `Libraries`. `Columns` has the specification
-- and the loops of secure_aggregate, `Aggregate` the way from the clients to the decrypted sum. `Adaptor`
-- models EnterpriseClient of services/edge_fabric/federated_learning/flower_adaptor.py, over torch's
-- load_state_dict as a parameter.
--
-- * `Arc` models services/multi_cloud_mesh/service_sync/azure_arc.py, AzureArcController, over the
-- parameter `Azure`; an operation returns its outcome and its calls. `Ids` is about the parsing of
-- resource ids, `Tags` about what connect_cluster writes, and `Deploy` has deploy_extension and
-- enforce_policy.
--
-- * `Discovery` models integration/discovery/schema_learner.py, SchemaLearner and AutoConnectManager:
-- `Fields` is about what infer_schema returns, `Endpoints` has discover_endpoints.
--
-- * `Soc2` models enterprise/compliance_as_code/soc2_monitor.py, SOC2Monitor, over the methods that it calls
-- and does not define (`Methods`); `Blind` is about what a report depends on.
--
-- A float is a value of a type with the operations and laws of `Common.Real`, which hold of IEEE
-- doubles that are not NaN; the values of `Auction` are of any type with the operations
-- that it uses (`Floats`), of which nothing is assumed. A Python int is an integer `ℤ` over the native numbers. A dict with text
-- keys is an association list in insertion order. What a library draws at random comes from a seed that is
-- handed on. Exceptions are values of a result type.
--
-- Fuel: get_ancestors gets one round more than there are precondition links, and validate_dag one more
-- than there are child links, as visualize does; all are proved enough on every graph. The search takes its fuel as an
-- argument: for every input there is an amount that is enough. The heap of `heapq` is modelled by its
-- contract, as a list in order of cost; a comparison of two equal costs raises TypeError. In the search
-- every push is cheaper than all that waits, so no such comparison is ever made.
--
-- `child.validate_resources` is called by planner.py and defined nowhere in the repository: it is a
-- parameter, `none` where the attribute is not found.
--
-- Not modelled: networks and tensors (torch, numpy), what is behind the calls of the cloud services and of
-- Spark, the rendering of drawings, logging, the example blocks, and all code in other languages.
pub mod Common
pub mod Planner
pub mod Client
pub mod Types
pub mod Gdpr
pub mod Auction
pub mod Orchestrator
pub mod Idoc
pub mod Replay
pub mod Hybrid
pub mod Federated
pub mod Arc
pub mod Discovery
pub mod Soc2

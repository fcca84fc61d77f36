-- ===== src/Idoc/Dispatch.antt =====
-- integration/adapters/sap/idoc_adapter.py: the construction of an adapter from the environment's variables, and
-- the delivery of a document. A request is known by its number; the two services are functions of it.
pub mod Copies
use qervan_ai.Common.{
  ℕ, zero, suc, ◌+◌, Bool, true, false, not, List, [], ◌∷◌, ◌++◌, Option, none, some, Result, ok,
  err, Text, codes, if◌then◌else◌, ◌>>=◌,
}
use qervan_ai.Idoc.{
  IdocError, attribute_error, type_error, retry_error, http_error, environment_error,
}

pub record Adapter : Type 0 where
  pub sap_host : Option Text
  pub sap_client : Option Text
  pub api_key : Option Text
  pub signing_key : Text

-- not os.getenv(var): the variable is not set, or empty
abbrev pub is_missing : Option Text → Bool
is_missing none = true
is_missing (some []) = true
is_missing (some (c ∷ cs)) = false

abbrev pub missing_of : (Text → Option Text) → List Text → List Text
missing_of getenv [] = []
missing_of getenv (var ∷ vars) =
    let rest = missing_of getenv vars in if is_missing (getenv var) then var ∷ rest else rest

abbrev pub required_vars : List Text
required_vars = codes "SAP_HOST" ∷ codes "SAP_CLIENT" ∷ codes "SAP_API_KEY" ∷ []

unfoldable pub validate_environment : (Text → Option Text) → Result IdocError (Unit {0})
validate_environment getenv = elim (missing_of getenv required_vars) [
  | [] ↦ ok tt
  | var ∷ vars ↦ err environment_error
]

-- __init__: None has no encode().
unfoldable pub new_adapter : (Text → Option Text) → Result IdocError Adapter
unfolding validate_environment
new_adapter getenv = elim (getenv (codes "IDOC_SIGNING_KEY")) [
  | none ↦ err attribute_error
  | some key ↦
      (validate_environment getenv >>= λ _. ok (record {
        sap_host = getenv (codes "SAP_HOST");
        sap_client = getenv (codes "SAP_CLIENT");
        api_key = getenv (codes "SAP_API_KEY");
        signing_key = key;
      }))
]

-- What becomes of a request: it is not sent (a refused connection, no URL), it is sent and nothing comes back, or it
-- is answered with a status.
pub data Answer : Type 0 where
  not_sent no_answer : Answer
  answer : (status : ℕ) → Answer

pub record Services (Data : Type 0) : Type 0 where
  pub eds : (request : ℕ) → Answer
  pub monitoring : (request : ℕ) → Answer
  pub raises_for_status : ℕ → Bool
  -- hmac.new(key, json.dumps(payload, sort_keys=True).encode(), sha256).hexdigest(), `none` where
  -- json.dumps raises on the payload
  pub hexdigest : (key : Text) → Data → Option Text

pub record Delivery (Data : Type 0) : Type 0 where
  pub signature : Text
  pub payload : Data

-- The documents that EDS was sent, the last one first, and how many posts of metrics were tried.
pub record Traffic (Data : Type 0) : Type 0 where
  pub deliveries : List (Delivery Data)
  pub metrics : ℕ

module _ {Data : Type 0} (s : Services Data) (a : Adapter) where
  unfoldable pub generate_signature : Data → Option Text
  generate_signature payload = elim (s.hexdigest a.signing_key payload) [
    | none ↦ none
    | some digest ↦ some (codes "v1:" ++ digest)
  ]

  -- requests.post raises where there is no answer; the status of the answer is not looked at.
  unfoldable pub monitor_performance : Traffic Data → Result IdocError (Unit {0}) × Traffic Data
  monitor_performance t = (
    elim (s.monitoring t.metrics) [ answer status ↦ ok tt | _ ↦ err http_error ],
    record t { metrics = suc t.metrics },
  )

  -- The body of _dispatch_to_eds.
  unfoldable pub dispatch_once :
      (request : ℕ) → Data → Traffic Data → Result IdocError (Unit {0}) × Traffic Data
  unfolding generate_signature monitor_performance
  dispatch_once request payload t = elim (generate_signature payload) [
    | none ↦ (err type_error, t)
    | some signature ↦
        let sent : Traffic Data = record t {
          deliveries = record { signature = signature; payload = payload } ∷ t.deliveries;
        } in
        elim (s.eds request) [
          | not_sent ↦ (err http_error, t)
          | no_answer ↦ (err http_error, sent)
          | answer status ↦
              if s.raises_for_status status
              then (err http_error, sent)
              else monitor_performance sent
        ]
  ]

  -- The attempts that are left; then RetryError.
  unfoldable pub dispatch_attempts :
      (left request : ℕ) → Data → Traffic Data → Result IdocError (Unit {0}) × Traffic Data
  unfolding dispatch_once
  dispatch_attempts zero request payload t = (err retry_error, t)
  dispatch_attempts (suc left) request payload t =
      let (outcome, t') = dispatch_once request payload t in
      elim outcome [ ok u ↦ (ok u, t') | err e ↦ dispatch_attempts left (suc request) payload t' ]

  unfoldable pub dispatch_to_eds :
      (request : ℕ) → Data → Traffic Data → Result IdocError (Unit {0}) × Traffic Data
  unfolding dispatch_attempts
  dispatch_to_eds request payload t = dispatch_attempts 3 request payload t

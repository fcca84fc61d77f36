-- ===== src/Client.antt =====
-- developer_experience/sdk/python/nuzon/client.py: NuzonClient, its circuit breaker and its retries.
-- httpx is a parameter: `Httpx` says what the code relies on, and what the server does is a function
-- from the number of a request to its reply. `hmac` is used by the file and not imported by it, so it is
-- an argument that is `none` where the name is not found.
pub mod Config
pub mod Breaker
pub mod Replies
pub mod Retry
pub mod Unsigned
mod Examples
use qervan_ai.Common.{
  ℕ, zero, suc, ◌+◌, ◌≡◌, ◌<◌, Bool, true, false, not, String, List, [], ◌∷◌, ◌++◌, Option, none,
  some, Result, ok, err, Dict, insert, leb, if◌then◌else◌, ◌>>=◌,
}
use qervan_ai.Common.Int.{ℤ, pos, ltb_ℤ}

abbrev pub Bytes : Type 0
Bytes = List ℕ

pub record Httpx : Type 0 where
  pub is_success : ℕ → Bool
  pub raises_for_status : ℕ → Bool
  -- raise_for_status raises for the statuses that are no success, and a server error is none
  pub raises-not : (status : ℕ) → raises_for_status status ≡ not (is_success status)
  pub success_lt : (status : ℕ) → is_success status ≡ true → status < 500

-- What response.json() gives: no JSON, JSON that is no object, or an object with the fields that the
-- code reads. `response` is `none` where pydantic refuses the object.
pub data Body (R : Type 0) : Type 0 where
  not_json not_object : Body R
  object : (message : Option String) (response : Option R) → Body R

-- The exceptions of httpx: NetworkError, TimeoutException, and every other that it raises of a request (protocol errors,
-- an unsupported URL, a body that cannot be decoded, …).
pub data Failure : Type 0 where
  network_error timeout_error other_error : Failure

-- What becomes of a request: it fails before there is a response; or there is a response with a status, which the
-- response hook is given before the body is read, and the reading of the body fails; or there is a
-- response with its body.
pub data Reply (R : Type 0) : Type 0 where
  lost : Failure → Reply R
  cut : (status : ℕ) → Failure → Reply R
  response : (status : ℕ) (body : Body R) → Reply R

-- NuzonError with its message and code, and the exceptions of the libraries and the language.
pub data ClientError : Type 0 where
  nuzon_error : (message : String) (code : ℕ) → ClientError
  name_error network timeout transport http_status validation json_decode type_error attribute_error
        retry_error runtime_error :
      ClientError

pub record Request : Type 0 where
  pub method : Bytes
  pub url : Bytes
  pub headers : Dict Bytes

-- The fields of the object that change, the two settings that its methods read, and how many
-- requests httpx was made to send.
pub record NuzonClient : Type 0 where
  pub api_key : Bytes
  pub circuit_breaker_threshold : ℤ
  pub circuit_open : Bool
  pub failure_count : ℕ
  pub sent : ℕ

-- __init__
unfoldable pub init : Bytes → ℤ → NuzonClient
init api_key threshold = record {
  api_key = api_key;
  circuit_breaker_threshold = threshold;
  circuit_open = false;
  failure_count = 0;
  sent = 0;
}

abbrev pub Hmac : Type 0
Hmac = Option (Bytes → Bytes → Bytes)

-- _sign_request, at a time.
unfoldable pub sign_request : Hmac → Bytes → NuzonClient → Request → Result ClientError Request
sign_request none timestamp c request = err name_error
sign_request (some hmac) timestamp c request =
    let payload = request.method ++ (request.url ++ timestamp) in
    let signature = hmac c.api_key payload in
    ok (record request {
      headers =
          insert (insert request.headers "X-Nuzon-Timestamp" timestamp) "X-Nuzon-Signature"
            signature;
    })

-- _validate_response
unfoldable pub validate_response : Httpx → ℕ → NuzonClient → NuzonClient
validate_response h status c =
    let count = c.failure_count + 1 in
    if leb 500 status
    then record c {
      failure_count = count;
      circuit_open = if ltb_ℤ (pos count) c.circuit_breaker_threshold then c.circuit_open else true;
    }
    else if h.is_success status
    then record c { failure_count = 0; circuit_open = false }
    else c

unfoldable pub failure_error : Failure → ClientError
failure_error network_error = network
failure_error timeout_error = timeout
failure_error other_error = transport

module _ {R : Type 0} where
  -- _handle_http_error
  unfoldable pub handle_http_error : ℕ → Body R → ClientError
  handle_http_error status not_json = json_decode
  handle_http_error status not_object = attribute_error
  handle_http_error status (object none r) = nuzon_error "Unknown error" status
  handle_http_error status (object (some message) r) = nuzon_error message status

  -- AgentResponse(**response.json()), with _handle_validation_error
  unfoldable pub parse_response : Body R → Result ClientError R
  parse_response not_json = err json_decode
  parse_response not_object = err type_error
  parse_response (object message none) = err (nuzon_error "Validation failed" 422)
  parse_response (object message (some r)) = ok r

  -- response.raise_for_status() and what follows it
  unfoldable pub read_response : Httpx → ℕ → Body R → Result ClientError R
  unfolding handle_http_error parse_response
  read_response h status body =
      if h.raises_for_status status
      then err (handle_http_error status body)
      else parse_response body

  -- retry_if_exception_type((httpx.NetworkError, httpx.TimeoutException))
  unfoldable pub is_retried : Result ClientError R → Bool
  is_retried (err network) = true
  is_retried (err timeout) = true
  is_retried _ = false

  -- self._client.post, with the response hook, and the rest of `execute`
  unfoldable pub receive : Httpx → Reply R → NuzonClient → Result ClientError R × NuzonClient
  unfolding validate_response read_response failure_error
  receive h (lost failure) c = (err (failure_error failure), record c { sent = c.sent + 1 })
  receive h (cut status failure) c =
      (err (failure_error failure), validate_response h status (record c { sent = c.sent + 1 }))
  receive h (response status body) c =
      (read_response h status body, validate_response h status (record c { sent = c.sent + 1 }))

  -- The clock gives the time at which the n-th request is signed, and the server its reply.
  module _ (h : Httpx) (hmac : Hmac) (clock : ℕ → Bytes) (server : ℕ → Request → Reply R) where
    -- The body of `execute`, once.
    unfoldable pub attempt : Request → NuzonClient → Result ClientError R × NuzonClient
    unfolding sign_request receive
    attempt request c =
        if c.circuit_open
        then (err (nuzon_error "Circuit breaker active" 503), c)
        else elim (sign_request hmac (clock c.sent) c request) [
          | err e ↦ (err e, c)
          | ok signed ↦ receive h (server c.sent signed) c
        ]

    -- stop_after_attempt: RetryError when the last attempt ends in an exception that is retried.
    unfoldable pub with_retry : ℕ → Request → NuzonClient → Result ClientError R × NuzonClient
    unfolding attempt is_retried
    with_retry zero request c = (err retry_error, c)
    with_retry (suc left) request c =
        let (result, c') = attempt request c in
        let again = with_retry left request c' in if is_retried result then again else (result, c')

    unfoldable pub execute : Request → NuzonClient → Result ClientError R × NuzonClient
    unfolding with_retry
    execute request c = with_retry 3 request c

    -- One call after another on the same object.
    unfoldable pub execute_all :
        List Request → NuzonClient → List (Result ClientError R) × NuzonClient
    unfolding execute
    execute_all [] c = ([], c)
    execute_all (request ∷ requests) c =
        let (result, c') = execute request c in
        let (results, c'') = execute_all requests c' in (result ∷ results, c'')

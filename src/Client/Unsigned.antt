-- ===== src/Client/Unsigned.antt =====
-- `execute` where the module `hmac` is not found.
use qervan_ai.Common.{
  ℕ, ◌≡◌, refl, inl, inr, List, [], ◌∷◌, none, Result, err, if◌then◌else◌, Bool-cases,
}
use qervan_ai.Client.{
  Bytes, Httpx, Reply, ClientError, nuzon_error, name_error, Request, NuzonClient, attempt,
  is_retried, with_retry, execute, execute_all,
}

module _ {R : Type 0} (h : Httpx) (clock : ℕ → Bytes) (server : ℕ → Request → Reply R) where
  -- What the client answers without the module `hmac`.
  abbrev pub unsigned : NuzonClient → Result ClientError R
  unsigned c =
      if c.circuit_open then err (nuzon_error "Circuit breaker active" 503) else err name_error

  abbrev pub all_unsigned : List Request → NuzonClient → List (Result ClientError R)
  all_unsigned [] c = []
  all_unsigned (request ∷ requests) c = unsigned c ∷ all_unsigned requests c

  execute-unsigned :
      (request : Request) (c : NuzonClient)
      → execute h none clock server request c ≡ (unsigned c, c)
  unfolding execute is_retried
  execute-unsigned request c = elim (Bool-cases c.circuit_open) [
    | inl e ↦
        let stays : attempt h none clock server request c ≡ (unsigned c, c) = simp (e, attempt) in
        simp (e, stays, with_retry)
    | inr e ↦
        let stays : attempt h none clock server request c ≡ (unsigned c, c) = simp (e, attempt) in
        simp (e, stays, with_retry)
  ]

  -- The file does not import `hmac`: without it no sequence of `execute` calls sends a request or changes the object, and every
  -- call raises NameError, or NuzonError 503 where the circuit is open.
  pub execute_all-unsigned :
      (requests : List Request) (c : NuzonClient)
      → execute_all h none clock server requests c ≡ (all_unsigned requests c, c)
  unfolding execute_all
  execute_all-unsigned [] c = refl
  execute_all-unsigned (request ∷ requests) c =
      simp (execute-unsigned request c, execute_all-unsigned requests c)

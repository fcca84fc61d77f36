-- ===== src/Idoc/Dispatch/Copies.antt =====
-- integration/adapters/sap/idoc_adapter.py: how often _dispatch_to_eds delivers a document.
use qervan_ai.Common.{
  Result, none, some, Option-cases, Text, ℕ, zero, suc, ◌+◌, ◌≤◌, false, List, ◌∷◌, ok, err, ◌≡◌,
  refl, sym, ◌∙◌, ap, ◌⊎◌, inl, inr, arith, Result-cases, Bool-cases, ok-ne-err,
}
use qervan_ai.Idoc.{IdocError, http_error, type_error, retry_error}
use qervan_ai.Idoc.Dispatch.{
  Adapter, Services, Answer, answer, not_sent, no_answer, Delivery, Traffic, generate_signature,
  monitor_performance, dispatch_once, dispatch_attempts, dispatch_to_eds,
}

-- How many requests went out of so many attempts, the first of which has this number.
pub went_out : Answer → ℕ
went_out not_sent = 0
went_out no_answer = 1
went_out (answer status) = 1

pub sent_count : (ℕ → Answer) → (request attempts : ℕ) → ℕ
sent_count eds request zero = 0
sent_count eds request (suc k) = went_out (eds request) + sent_count eds (suc request) k

-- The document with its signature, some times over.
abbrev pub copies : {Data : Type 0} → ℕ → Text → Data → List (Delivery Data) → List (Delivery Data)
copies zero signature payload before = before
copies (suc k) signature payload before =
    record { signature = signature; payload = payload } ∷ copies k signature payload before

copies-copies :
    {Data : Type 0} (k m : ℕ) (signature : Text) (payload : Data) (before : List (Delivery Data))
    → copies k signature payload (copies m signature payload before)
      ≡ copies (m + k) signature payload before
copies-copies zero m signature payload before =
    let same : m ≡ m + 0 = omega arith in ap (λ n. copies n signature payload before) same
copies-copies (suc k) m signature payload before =
    let same : suc (m + k) ≡ m + suc k = omega arith in
    ap (λ ds. record { signature = signature; payload = payload } ∷ ds)
      (copies-copies k m signature payload before)
    ∙ ap (λ n. copies n signature payload before) same

Answer-cases :
    (x : Answer) → (x ≡ not_sent) ⊎ ((x ≡ no_answer) ⊎ ((status : ℕ) × (x ≡ answer status)))
Answer-cases not_sent = inl refl
Answer-cases no_answer = inr (inl refl)
Answer-cases (answer status) = inr (inr (status, refl))

module _ {Data : Type 0} (s : Services Data) (a : Adapter) where
  -- EDS answers the request with a status that is no error.
  abbrev pub Accepts : ℕ → Type 0
  Accepts request =
      (status : ℕ) × (s.eds request ≡ answer status) × (s.raises_for_status status ≡ false)

  unsigned_once :
      (request : ℕ) (payload : Data) (t : Traffic Data)
      → generate_signature s a payload ≡ none
      → dispatch_once s a request payload t ≡ (err type_error, t)
  unfolding dispatch_once
  unsigned_once request payload t unsigned = rw (unsigned, dispatch_once) refl

  unsigned_attempts :
      (left request : ℕ) (payload : Data) (t : Traffic Data)
      → generate_signature s a payload ≡ none
      → dispatch_attempts s a left request payload t ≡ (err retry_error, t)
  unfolding dispatch_attempts
  unsigned_attempts zero request payload t unsigned = refl
  unsigned_attempts (suc left) request payload t unsigned = simp (
    unsigned_once request payload t unsigned,
    dispatch_attempts,
    unsigned_attempts left (suc request) payload t unsigned,
  )

  dispatch_once-delivers :
      (request : ℕ) (payload : Data) (signature : Text) (t : Traffic Data)
      → generate_signature s a payload ≡ some signature
      → ((dispatch_once s a request payload t).1.deliveries
          ≡ copies (went_out (s.eds request)) signature payload t.deliveries)
        × (((dispatch_once s a request payload t).0 ≡ ok tt) → Accepts request)
  unfolding dispatch_once monitor_performance went_out
  dispatch_once-delivers request payload signature t signed = elim (Answer-cases (s.eds request)) [
    | inl unsent ↦ (
      rw (signed, unsent, dispatch_once) refl,
      (λ h. absurd (ok-ne-err tt http_error (sym h ∙ rw (signed, unsent, dispatch_once) refl))),
    )
    | inr (inl silent) ↦ (
      rw (signed, silent, dispatch_once) refl,
      (λ h. absurd (ok-ne-err tt http_error (sym h ∙ rw (signed, silent, dispatch_once) refl))),
    )
    | inr (inr (status, answered)) ↦ elim (Bool-cases (s.raises_for_status status)) [
      | inl refused ↦ (
        rw (signed, answered, refused, dispatch_once) refl,
        (λ h.
            absurd (
              ok-ne-err tt http_error
                (sym h ∙ rw (signed, answered, refused, dispatch_once) refl))),
      )
      | inr accepted ↦
          (rw (signed, answered, accepted, dispatch_once) refl, (λ h. (status, answered, accepted)))
    ]
  ]

  -- What so many attempts have done, when k of them were made.
  abbrev pub Tried :
      (left request : ℕ)
      → Data
      → Text
      → Traffic Data
      → Result IdocError (Unit {0}) × Traffic Data
      → ℕ
      → Type 0
  Tried left request payload signature t (outcome, t') k =
      (t'.deliveries ≡ copies (sent_count s.eds request k) signature payload t.deliveries)
      × ((outcome ≡ ok tt) × (1 ≤ k) × (k ≤ left) × ((n : ℕ) × (n + 1 ≡ request + k) × Accepts n)
          ⊎ (outcome ≡ err retry_error) × (k ≡ left))

  dispatch_attempts-Tried :
      (left request : ℕ) (payload : Data) (signature : Text) (t : Traffic Data)
      → generate_signature s a payload ≡ some signature
      → (k : ℕ) × Tried left request payload signature t
          (dispatch_attempts s a left request payload t)
          k
  unfolding dispatch_attempts sent_count
  dispatch_attempts-Tried zero request payload signature t signed = (0, (refl, inr (refl, refl)))
  dispatch_attempts-Tried (suc left) request payload signature t signed =
      let (delivered, accepts) = dispatch_once-delivers request payload signature t signed in
      let first = went_out (s.eds request) in
      elim (Result-cases (dispatch_once s a request payload t).0) [
        | inl (u, returned) ↦ (
          1,
          (
            rw (returned, dispatch_attempts)
                (delivered ∙ ap (λ n. copies n signature payload t.deliveries) (same_count first)),
            inl (
              rw (returned, dispatch_attempts) refl,
              omega arith,
              omega arith,
              (request, refl, accepts returned),
            ),
          ),
        )
        | inr (e, raised) ↦
            let t' = (dispatch_once s a request payload t).1 in
            let (k, (others, outcome)) =
              dispatch_attempts-Tried left (suc request) payload signature t' signed in
            (
              suc k,
              (
                rw (raised, dispatch_attempts)
                    (others
                      ∙ (ap (copies (sent_count s.eds (suc request) k) signature payload) delivered
                          ∙ copies-copies (sent_count s.eds (suc request) k) first signature payload
                              t.deliveries)),
                elim outcome [
                  | inl (returned, some_attempt, few, (n, last, accepted)) ↦ inl (
                    rw (raised, dispatch_attempts) returned,
                    omega arith,
                    omega (arith, few),
                    (n, omega (arith, last), accepted),
                  )
                  | inr (failed, all) ↦
                      inr (rw (raised, dispatch_attempts) failed, omega (arith, all))
                ],
              ),
            )
      ]
    where
      same_count : (n : ℕ) → n ≡ n + 0
      same_count n = omega arith

  -- _dispatch_to_eds never sends a document that it cannot sign, and then raises RetryError. One that it
  -- can sign it tries to send one to three times, and EDS is sent a copy with the signature for every
  -- attempt whose request went out, and no other: if the method returns, the last attempt was sent and
  -- EDS accepted it, and if it does not, there were three attempts and it raises RetryError.
  pub dispatch_to_eds-copies :
      (request : ℕ) (payload : Data) (t : Traffic Data)
      → ((generate_signature s a payload ≡ none)
          × (dispatch_to_eds s a request payload t ≡ (err retry_error, t)))
        ⊎ ((signature : Text) × (k : ℕ) × (generate_signature s a payload ≡ some signature)
            × (1 ≤ k)
            × (k ≤ 3)
            × Tried 3 request payload signature t (dispatch_to_eds s a request payload t) k)
  unfolding dispatch_to_eds
  dispatch_to_eds-copies request payload t = elim (Option-cases (generate_signature s a payload)) [
    | inl unsigned ↦ inl (unsigned, unsigned_attempts 3 request payload t unsigned)
    | inr (signature, signed) ↦
        let (k, (delivered, outcome)) =
          dispatch_attempts-Tried 3 request payload signature t signed in
        elim outcome [
          | inl (returned, some_attempt, few, last) ↦ inr (
            signature,
            k,
            signed,
            some_attempt,
            few,
            (delivered, inl (returned, some_attempt, few, last)),
          )
          | inr (failed, all) ↦ inr (
            signature,
            k,
            signed,
            omega (arith, all),
            omega (arith, all),
            (delivered, inr (failed, all)),
          )
        ]
  ]

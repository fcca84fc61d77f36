-- ===== src/Client/Retry.antt =====
-- The retries of `execute`: which requests a call sends, what it ends in, and what the circuit breaker has seen.
use qervan_ai.Common.{
  ==_iff, ◌==◌, ℕ, zero, suc, ◌+◌, ◌<◌, ◌≡◌, refl, sym, ◌∙◌, ap, ◌⊎◌, inl, inr, true, false, List,
  [], some, Result, err, arith, Bool-cases, subst, ◌++◌, insert,
}
use qervan_ai.Client.{
  sign_request, Bytes, Httpx, Reply, lost, cut, response, ClientError, nuzon_error, retry_error,
  Request, NuzonClient, read_response, validate_response, receive, attempt, is_retried, with_retry,
  execute, failure_error,
}
use qervan_ai.Client.Breaker.{observe}
use qervan_ai.Client.Replies.{
  validate_response-sent, observe-api_key, transient, seen, answer_of, answer_of-is_retried,
}

module _ {R : Type 0} (h : Httpx) (clock : ℕ → Bytes) (server : ℕ → Request → Reply R)
    (digest : Bytes → Bytes → Bytes) (request : Request) (c : NuzonClient) where
  -- The request as it is sent the n-th time.
  pub signed : Bytes → ℕ → Request
  signed api_key n = record request {
    headers =
        insert (insert request.headers "X-Nuzon-Timestamp" (clock n)) "X-Nuzon-Signature"
          (digest api_key (request.method ++ (request.url ++ clock n)));
  }

  -- The n-th reply that the call gets, from 0.
  pub reply_of : ℕ → Reply R
  reply_of n = server (c.sent + n) (signed c.api_key (c.sent + n))

  -- The statuses among the first n replies, the latest first.
  pub history : ℕ → List ℕ
  history zero = []
  history (suc n) = seen (reply_of n) (history n)

  -- The object after n requests: the breaker has seen the statuses of their replies.
  pub after : ℕ → NuzonClient
  after n = record (observe h (history n) c) { sent = c.sent + n }

  -- So many requests are retried: the circuit is closed before each, and its reply is transient.
  pub AllRetried : ℕ → Type 0
  AllRetried m =
      (k : ℕ) → k < m → ((after k).circuit_open ≡ false) × (transient (reply_of k) ≡ true)

  -- The outcomes of a call that has so many attempts.
  pub Attempts : ℕ → Result ClientError R × NuzonClient → Type 0
  Attempts limit outcome =
      (m : ℕ) × (AllRetried m
        × (((m ≡ limit) × (outcome ≡ (err retry_error, after m)))
            ⊎ (((m < limit)
                  × (((after m).circuit_open ≡ true)
                      × (outcome ≡ (err (nuzon_error "Circuit breaker active" 503), after m))))
                ⊎ ((m < limit)
                    × (((after m).circuit_open ≡ false)
                        × ((transient (reply_of m) ≡ false)
                            × (outcome ≡ (answer_of h (reply_of m), after (suc m)))))))))

  next_count : (n : ℕ) → c.sent + n + 1 ≡ c.sent + suc n
  next_count n = omega arith

  -- A reply that came, and the object that it leaves.
  receive-after :
      (n : ℕ) (r : Reply R)
      → reply_of n ≡ r
      → receive h r (after n) ≡ (answer_of h r, after (suc n))
  unfolding receive after history seen answer_of observe
  receive-after n (lost failure) e =
      rw (e, history)
        (ap (λ k. (err (failure_error failure), record (observe h (history n) c) { sent = k }))
          (next_count n))
  receive-after n (cut status failure) e =
      rw (e, history)
        (ap (λ c'. (err (failure_error failure), c'))
            (validate_response-sent h status (observe h (history n) c) (c.sent + n + 1))
          ∙ ap
              (λ k. (
                err (failure_error failure),
                record (validate_response h status (observe h (history n) c)) { sent = k },
              ))
              (next_count n))
  receive-after n (response status body) e =
      rw (e, history)
        (ap (λ c'. (read_response h status body, c'))
            (validate_response-sent h status (observe h (history n) c) (c.sent + n + 1))
          ∙ ap
              (λ k. (
                read_response h status body,
                record (validate_response h status (observe h (history n) c)) { sent = k },
              ))
              (next_count n))

  after-api_key : (n : ℕ) → (after n).api_key ≡ c.api_key
  unfolding after
  after-api_key n = observe-api_key h (history n) c

  receive-reply_of :
      (n : ℕ)
      → receive h (server (c.sent + n) (signed c.api_key (c.sent + n))) (after n)
        ≡ (answer_of h (reply_of n), after (suc n))
  unfolding reply_of
  receive-reply_of n = receive-after n (reply_of n) refl

  attempt_closed :
      (n : ℕ)
      → (after n).circuit_open ≡ false
      → attempt h (some digest) clock server request (after n)
        ≡ (answer_of h (reply_of n), after (suc n))
  unfolding attempt signed after sign_request
  attempt_closed n closed =
      let sends : attempt h (some digest) clock server request (after n)
          ≡ receive h (server (c.sent + n) (signed (after n).api_key (c.sent + n))) (after n) =
        simp (closed, attempt, after) in
      let same : (after n).api_key ≡ c.api_key = after-api_key n in
      sends
      ∙ ap (λ key. receive h (server (c.sent + n) (signed key (c.sent + n))) (after n)) same
      ∙ receive-reply_of n

  attempt_open :
      (n : ℕ)
      → (after n).circuit_open ≡ true
      → attempt h (some digest) clock server request (after n)
        ≡ (err (nuzon_error "Circuit breaker active" 503), after n)
  unfolding attempt
  attempt_open n opened = simp (opened, attempt)

  AllRetried-suc :
      (n : ℕ)
      → AllRetried n
      → (after n).circuit_open ≡ false
      → transient (reply_of n) ≡ true
      → AllRetried (suc n)
  unfolding AllRetried
  AllRetried-suc n all closed last k l = elim (Bool-cases (k == n)) [
    | inl same ↦
        let k_is_n = (==_iff k n).0 same in
        subst (λ i. ((after i).circuit_open ≡ false) × (transient (reply_of i) ≡ true)) (sym k_is_n)
          (closed, last)
    | inr other ↦ all k (ground (arith, l, other, ==_iff k n))
  ]

  with_retry-Attempts :
      (left n limit : ℕ)
      → n + left ≡ limit
      → AllRetried n
      → Attempts limit (with_retry h (some digest) clock server left request (after n))
  unfolding with_retry Attempts is_retried
  with_retry-Attempts zero n limit total all = (n, (all, inl (omega (arith, total), refl)))
  with_retry-Attempts (suc left) n limit total all = elim (Bool-cases (after n).circuit_open) [
    | inl opened ↦ (
      n,
      (all, inr (inl (omega (arith, total), (opened, simp (attempt_open n opened, with_retry))))),
    )
    | inr closed ↦
        let once = attempt_closed n closed in
        let retried = answer_of-is_retried h (reply_of n) in
        elim (Bool-cases (transient (reply_of n))) [
          | inl again ↦ subst (Attempts limit) (sym (simp (once, retried, again, with_retry))) (
              with_retry-Attempts left (suc n) limit (omega (arith, total))
                (AllRetried-suc n all closed again))
          | inr ends ↦ (
            n,
            (
              all,
              inr (
                  inr (
                    omega (arith, total),
                    (closed, (ends, simp (once, retried, ends, with_retry))),
                  )),
            ),
          )
        ]
  ]

  -- Where `hmac` is there, a call of `execute` hands m requests to httpx whose replies are all transient
  -- (a network error or a timeout, before the response or while its body is read), the circuit being
  -- closed before each, and ends in one of three ways: m is 3 and it raises RetryError; or m < 3, the
  -- circuit is open after the statuses of these replies, and it raises NuzonError 503 without a further
  -- request; or m < 3, the circuit is closed, the next request gets a reply that is not transient, and
  -- the call ends with what this reply gives. In each case the circuit breaker has seen the statuses of
  -- exactly the replies that had one, in order, and nothing else of the object has changed but the count
  -- of requests.
  pub execute-Attempts : Attempts 3 (execute h (some digest) clock server request c)
  unfolding execute after history observe AllRetried
  execute-Attempts =
      let same : c.sent + 0 ≡ c.sent = omega arith in
      subst (λ k. Attempts 3 (execute h (some digest) clock server request (record c { sent = k })))
        same (with_retry-Attempts 3 0 3 refl (λ k l. absurd (omega (arith, l))))

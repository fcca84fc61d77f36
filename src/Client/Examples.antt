-- ===== src/Client/Examples.antt =====
-- A client with the threshold 2 and a server that times out once after it has sent a status, and the theorems at these values.

use qervan_ai.Common.{
  ℕ, zero, suc, ◌<◌, ◌≡◌, refl, Bool, true, not, ◌&&◌, List, [], ◌∷◌, ◌++◌, none, some, leb, ltb,
  ok, err, arith,
}
use qervan_ai.Common.Int.{pos}
use qervan_ai.Client.{
  Bytes, Httpx, object, Reply, cut, nuzon_error, timeout_error, response, Request, NuzonClient,
  init, execute, execute_all,
}
use qervan_ai.Client.Breaker.{
  observe, failures, tripped, observe-init, all_refused, execute_all_open,
}
use qervan_ai.Client.Retry.{Attempts, execute-Attempts}
use qervan_ai.Client.Unsigned.{all_unsigned, execute_all-unsigned}

abbrev success : ℕ → Bool
success status = leb 200 status && ltb status 300

success_below : (status : ℕ) → success status ≡ true → status < 500
success_below status e = ground (arith, e)

abbrev httpx : Httpx
httpx = record {
  is_success = success;
  raises_for_status = λ status. not (success status);
  raises-not = λ status. refl;
  success_lt = success_below;
}

abbrev clock : ℕ → Bytes
clock n = n ∷ []

abbrev flaky : ℕ → Request → Reply ℕ
flaky zero request = cut 503 timeout_error
flaky (suc n) request = response 200 (object none (some 7))

abbrev digest : Bytes → Bytes → Bytes
digest key payload = key ++ payload

abbrev post : Request
post = record { method = 1 ∷ []; url = 2 ∷ []; headers = [] }

abbrev fresh : NuzonClient
fresh = init (9 ∷ []) (pos 2)

abbrev broken : NuzonClient
broken = record fresh { circuit_open = true; failure_count = 2 }

-- The second attempt succeeds.
one_retry : (execute httpx (some digest) clock flaky post fresh).0 ≡ ok 7
unfolding init execute
one_retry = refl

two_sent : (execute httpx (some digest) clock flaky post fresh).1.sent ≡ 2
unfolding init execute
two_sent = refl

abbrev history : List ℕ
history = 503 ∷ 404 ∷ 500 ∷ 200 ∷ 502 ∷ []

observe-init_example :
    ((observe httpx history fresh).failure_count ≡ failures httpx history)
    × ((observe httpx history fresh).circuit_open ≡ tripped (failures httpx history) (pos 2))
observe-init_example = observe-init httpx history (9 ∷ []) (pos 2)

execute_all_open_example :
    execute_all httpx (some digest) clock flaky (post ∷ post ∷ []) broken
    ≡ (all_refused httpx (some digest) clock flaky (post ∷ post ∷ []), broken)
execute_all_open_example =
    execute_all_open httpx (some digest) clock flaky (post ∷ post ∷ []) broken refl

execute_all-unsigned_example :
    execute_all httpx none clock flaky (post ∷ post ∷ []) fresh
    ≡ (all_unsigned httpx clock flaky (post ∷ post ∷ []) fresh, fresh)
execute_all-unsigned_example = execute_all-unsigned httpx clock flaky (post ∷ post ∷ []) fresh

execute-Attempts_example :
    Attempts httpx clock flaky digest post fresh 3
      (execute httpx (some digest) clock flaky post fresh)
execute-Attempts_example = execute-Attempts httpx clock flaky digest post fresh

-- With the threshold 1 the circuit opens on a response whose body is cut off, and the second attempt is refused.
opened_between :
    (execute httpx (some digest) clock flaky post (init (9 ∷ []) (pos 1))).0
    ≡ err (nuzon_error "Circuit breaker active" 503)
unfolding init execute
opened_between = refl

-- ===== src/Tests/Gateway.antt =====
-- The gateway: two requests of one caller, a limiter of two tokens, and an echoing relay.
use parda.Base.{
  ℕ, ◌+◌, ◌-◌, ◌*◌, ◌≤◌, ◌≡◌, refl, true, false, Option, none, some, List, [], ◌∷◌, ◌++◌, arith,
  Bytes, bytes_beq, bytes_beq_iff, bytes_key, contains, if◌then◌else◌,
}
use parda.Result.{Result, ok}
use parda.Gateway.Limiter.{Bucket, one_token, new, is_refilling, refilled, outcomes, try_acquire}
use parda.HashMap.{insert}
use parda.Gateway.Limiter.Ideal.{ideal_outcomes, all_full, outcomes-ideal}
use parda.Gateway.Limiter.Bound.{accepted, accepted-outcomes}
use parda.Gateway.Limiter.Available.{available}
use parda.Gateway.Auth.{
  ApiSecurity, Caller, missing_header, invalid_api_key, auth_enabled, presented, key_prefix,
  address_bucket,
}
use parda.Gateway.Routes.{
  Route, RelayRequest, RelayAnswer, RelayFailure, refused, fetch_messages, get, serve,
  relay_request,
}
use parda.Gateway.Routes.Serve.{counted_answer, serve_lem}

abbrev alice : Bytes
alice = 1 ∷ []

abbrev bob : Bytes
bob = 2 ∷ []

-- one token a second
abbrev requests : List (ℕ × Bytes)
requests = (0, alice) ∷ (0, bob) ∷ (1, alice) ∷ (2, alice) ∷ (1_000_000_000, alice) ∷ []

outcomes-requests : outcomes (new 2 1 1) requests ≡ true ∷ true ∷ true ∷ false ∷ true ∷ []
unfolding outcomes new try_acquire insert
outcomes-requests = refl

outcomes-ideal_example :
    outcomes (new 2 1 1) requests ≡ ideal_outcomes (2 * one_token 1) 1 1 (all_full 2 1) requests
outcomes-ideal_example =
    outcomes-ideal 2 1 1 requests (omega arith)
      (omega arith, (omega arith, (omega arith, (omega arith, (omega arith, tt)))))

accepted-outcomes_example :
    accepted alice requests (outcomes (new 2 1 1) requests) * one_token (new 2 1 1).scale
    ≤ available (new 2 1 1) alice 0 + (1_000_000_000 - 0) * (new 2 1 1).per_second
unfolding new
accepted-outcomes_example =
    accepted-outcomes alice 0 1_000_000_000 (new 2 1 1) requests (omega arith) tt
      (omega arith, (omega arith, (omega arith, (omega arith, (omega arith, omega arith)))))

-- One token in 10,000 seconds, as in the repository's tests: after 1,000 seconds an eviction drops an
-- empty bucket of one token, of which a tenth has come back.
slow_dropped :
    let l = new 1 1 10_000 in
    let b : Bucket = record { tokens = 0; last_refill = 0 } in
    (is_refilling l 1_000_000_000_000 (alice, b) ≡ false)
    × (refilled l 1_000_000_000_000 b * 10 ≡ one_token 10_000)
unfolding new refilled
slow_dropped = (refl, refl)

abbrev caller : Caller
caller = record { authorization = none; peer_ip = some (7 ∷ []) }

abbrev secured_gateway : ApiSecurity
secured_gateway = record {
  api_keys = (9 ∷ []) ∷ [];
  limiter = record { capacity = 2 * one_token 1; per_second = 1; scale = 1; buckets = [] };
}

abbrev route : Route
route = fetch_messages "bob"

abbrev request : RelayRequest
request = record { method = get; path = "v1" ∷ "messages" ∷ "bob" ∷ []; body = none }

abbrev call : RelayRequest → ℕ → Result RelayFailure RelayAnswer × ℕ
call r n = (ok (record { status = 200; body = some (3 ∷ []) }), n + 1)

abbrev reprint : Option Bytes → Bytes
reprint none = []
reprint (some bytes) = bytes

routed : relay_request route ≡ some request
unfolding relay_request
routed = refl

serve_lem_example :
    let answer = serve reprint call bytes_beq route caller 5 secured_gateway 0 in
    (secured_gateway.api_keys ≡ []
      → answer
        ≡ counted_answer reprint call bytes_beq route request
            (address_bucket caller)
            5
            secured_gateway
            0)
    × (auth_enabled secured_gateway ≡ true
        → (presented caller ≡ none → answer ≡ ((401, refused missing_header), secured_gateway, 0))
          × ((key : Bytes)
              → presented caller ≡ some key
              → answer ≡ (
                  if contains secured_gateway.api_keys key
                  then counted_answer reprint call bytes_beq route request
                      (key_prefix ++ key)
                      5
                      secured_gateway
                      0
                  else ((401, refused invalid_api_key), secured_gateway, 0))))
serve_lem_example =
    serve_lem reprint call bytes_beq route request caller 5 secured_gateway 0 bytes_beq_iff routed

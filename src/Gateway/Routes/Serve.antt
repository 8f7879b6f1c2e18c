-- ===== src/Gateway/Routes/Serve.antt =====
-- What the gateway answers, and when it reaches the relay at all.
use parda.Base.{
  ℕ, Bool, true, ◌≡◌, ◌↔◌, refl, ap, ◌∙◌, Option, none, some, [], ◌++◌, Bytes, bytes_key,
  if◌then◌else◌, contains, Bool-cases, inl, inr,
}
use parda.Result.{Result, ok, err}
use parda.Gateway.Limiter.{try_acquire}
use parda.Gateway.Auth.{
  ApiSecurity, Caller, Refusal, invalid_api_key, missing_header, rate_limited, auth_enabled,
  presented, address_bucket, key_prefix, bucket_key, bucket_key_lem, middleware-refused,
  middleware-counted,
}
use parda.Gateway.Routes.{
  Route, health, upload_prekey_bundle, get_prekey_bundle, submit_message, fetch_messages,
  delete_message, RelayRequest, RelayAnswer, RelayFailure, Body, refused, relay_request, answer_of,
  handle, run, secured, serve, refusal_status,
}

module _ {S : Type 0} (reprint : Option Bytes → Bytes)
    (call : RelayRequest → S → Result RelayFailure RelayAnswer × S)
    (ct_eq : Bytes → Bytes → Bool) where
  serve-secured :
      (route : Route) (request : RelayRequest) (caller : Caller) (now : ℕ) (security : ApiSecurity)
      (s : S)
      → relay_request route ≡ some request
      → serve reprint call ct_eq route caller now security s
        ≡ secured reprint call ct_eq route caller now security s
  unfolding serve relay_request
  serve-secured health request caller now security s h = cc
  serve-secured (upload_prekey_bundle u b) request caller now security s h = refl
  serve-secured (get_prekey_bundle u) request caller now security s h = refl
  serve-secured (submit_message u b) request caller now security s h = refl
  serve-secured (fetch_messages u) request caller now security s h = refl
  serve-secured (delete_message u m) request caller now security s h = refl

  -- The answer to a request that is counted in a bucket.
  abbrev pub counted_answer :
      Route → RelayRequest → Bytes → ℕ → ApiSecurity → S → (ℕ × Body) × ApiSecurity × S
  counted_answer route request bucket now security s =
      let (accepted, limiter) = try_acquire bucket now security.limiter in
      let security' : ApiSecurity = record security { limiter = limiter } in
      let (result, s') = call request s in
      if accepted
      then (answer_of reprint route result, security', s')
      else ((429, refused rate_limited), security', s)

  secured-counted :
      (route : Route) (request : RelayRequest) (caller : Caller) (bucket : Bytes) (now : ℕ)
      (security : ApiSecurity) (s : S)
      → relay_request route ≡ some request
      → bucket_key ct_eq security caller ≡ ok bucket
      → secured reprint call ct_eq route caller now security s
        ≡ counted_answer route request bucket now security s
  unfolding secured run handle
  secured-counted route request caller bucket now security s h b =
      ap (run reprint call route s) (middleware-counted ct_eq caller bucket now security b)
      ∙ elim (Bool-cases (try_acquire bucket now security.limiter).0) [
        | inl e ↦ rw (e, handle, h) refl
        | inr e ↦ rw (e) refl
      ]

  secured-refused :
      (route : Route) (caller : Caller) (refusal : Refusal) (now : ℕ) (security : ApiSecurity)
      (s : S)
      → bucket_key ct_eq security caller ≡ err refusal
      → secured reprint call ct_eq route caller now security s
        ≡ ((refusal_status refusal, refused refusal), security, s)
  unfolding secured run
  secured-refused route caller refusal now security s b =
      ap (run reprint call route s) (middleware-refused ct_eq caller refusal now security b)

  -- Where the comparison of keys decides equality, a request to the relay is answered 401 and
  -- leaves the limiter and the relay as they are if keys are configured and it presents none or
  -- another; else it is counted under its own key, or its address if no keys are configured, and
  -- then either passed to the relay, whose answer it gets, or answered 429 without reaching it.
  pub serve_lem :
      (route : Route) (request : RelayRequest) (caller : Caller) (now : ℕ) (security : ApiSecurity)
      (s : S)
      → ((a b : Bytes) → (ct_eq a b ≡ true) ↔ (a ≡ b))
      → relay_request route ≡ some request
      → let answer = serve reprint call ct_eq route caller now security s in
        (security.api_keys ≡ []
          → answer ≡ counted_answer route request (address_bucket caller) now security s)
        × (auth_enabled security ≡ true
            → (presented caller ≡ none → answer ≡ ((401, refused missing_header), security, s))
              × ((key : Bytes)
                  → presented caller ≡ some key
                  → answer ≡ (
                      if contains security.api_keys key
                      then counted_answer route request (key_prefix ++ key) now security s
                      else ((401, refused invalid_api_key), security, s))))
  serve_lem route request caller now security s h r =
      let behind = serve-secured route request caller now security s r in
      let (opened, enabled) = bucket_key_lem ct_eq security caller h in
      (
        λ e.
            behind
            ∙ secured-counted route request caller (address_bucket caller) now security s r
                (opened e),
        λ e. (
          λ p.
              behind ∙ secured-refused route caller missing_header now security s ((enabled e).0 p),
          λ key p. elim (Bool-cases (contains security.api_keys key)) [
            | inl c ↦ rw (c) (
                behind
                ∙ secured-counted route request caller (key_prefix ++ key) now security s r
                    ((enabled e).1 key p ∙ rw (c) refl))
            | inr c ↦ rw (c) (
                behind
                ∙ secured-refused route caller invalid_api_key now security s
                    ((enabled e).1 key p ∙ rw (c) refl))
          ],
        ),
      )

-- ===== src/Gateway/Auth.antt =====
-- gateway/src/auth.rs, ApiSecurity and the middleware that authenticates and limits a request.
-- Texts are their bytes; white space is that of ASCII, the only one in a header that `to_str`
-- accepts. The constant-time comparison is a parameter.
use parda.Base.{
  ℕ, Bool, true, false, ◌||◌, ◌≡◌, ◌↔◌, refl, ap, ◌∙◌, arith, Option, none, some, List, [], ◌∷◌,
  ◌++◌, Bytes, bytes_key, bytes_beq_iff, nat_beq, if◌then◌else◌, contains, Bool-cases, inl, inr,
}
use parda.Text.{trim, listed}
use parda.Result.{Result, ok, err}
use parda.Gateway.Limiter.{RateLimiter, new, try_acquire}

abbrev pub default_burst : ℕ
default_burst = 60

-- A rate as the limiter takes it: a numerator and its scale.
abbrev pub default_per_second : ℕ × ℕ
default_per_second = (10, 1)

pub record ApiSecurity : Type 0 where
  pub api_keys : List Bytes
  pub limiter : RateLimiter

-- `str::strip_prefix`
pub strip_prefix : Bytes → Bytes → Option Bytes
strip_prefix [] s = some s
strip_prefix (p ∷ ps) [] = none
strip_prefix (p ∷ ps) (c ∷ cs) = let rest = strip_prefix ps cs in if nat_beq p c then rest else none

-- The configured keys: the variable's text, `unwrap_or_default` if it is unset.
pub api_keys_of : Option Bytes → List Bytes
unfolding listed
api_keys_of none = []
api_keys_of (some text) = listed text

abbrev unwrap_or : {A : Type 0} → A → Option A → A
unwrap_or n none = n
unwrap_or n (some m) = m

pub new_security : List Bytes → ℕ → ℕ × ℕ → ApiSecurity
new_security api_keys burst (per_second, scale) = record {
  api_keys = api_keys;
  limiter = new burst per_second scale;
}

-- `from_env` on the variables' values, the two numbers already parsed where they parse, the rate to a
-- number that is neither negative nor infinite.
pub from_env : Option Bytes → Option ℕ → Option (ℕ × ℕ) → ApiSecurity
unfolding new_security api_keys_of
from_env keys burst per_second =
    new_security (api_keys_of keys) (unwrap_or default_burst burst)
      (unwrap_or default_per_second per_second)

pub auth_enabled : ApiSecurity → Bool
auth_enabled s = elim s.api_keys [ [] ↦ false | k ∷ ks ↦ true ]

-- What the middleware reads of a request: the header, if its bytes are visible ASCII, and the
-- peer's printed address, if the server knows it.
pub record Caller : Type 0 where
  pub authorization : Option Bytes
  pub peer_ip : Option Bytes

pub data Refusal : Type 0 where
  invalid_api_key : Refusal
  missing_header : Refusal
  rate_limited : Refusal

abbrev pub bearer : Bytes
bearer = 66 ∷ 101 ∷ 97 ∷ 114 ∷ 101 ∷ 114 ∷ 32 ∷ []

-- "key:", "addr:" and "anonymous"
abbrev pub key_prefix : Bytes
key_prefix = 107 ∷ 101 ∷ 121 ∷ 58 ∷ []

abbrev pub addr_prefix : Bytes
addr_prefix = 97 ∷ 100 ∷ 100 ∷ 114 ∷ 58 ∷ []

abbrev pub anonymous : Bytes
anonymous = 97 ∷ 110 ∷ 111 ∷ 110 ∷ 121 ∷ 109 ∷ 111 ∷ 117 ∷ 115 ∷ []

pub presented : Caller → Option Bytes
unfolding strip_prefix trim
presented caller = elim caller.authorization [
  | none ↦ none
  | some header ↦ elim (strip_prefix bearer header) [ none ↦ none | some token ↦ some (trim token) ]
]

pub address_bucket : Caller → Bytes
address_bucket caller = elim caller.peer_ip [ none ↦ anonymous | some ip ↦ addr_prefix ++ ip ]

-- what the middleware does with a request that has a bucket, or none
pub count_in : Result Refusal Bytes → ℕ → ApiSecurity → Result Refusal (Unit {0}) × ApiSecurity
count_in (err refusal) now s = (err refusal, s)
count_in (ok key) now s =
    let (accepted, limiter) = try_acquire key now s.limiter in
    let s' : ApiSecurity = record s { limiter = limiter } in
    if accepted then (ok tt, s') else (err rate_limited, s')

module _ (ct_eq : Bytes → Bytes → Bool) where
  -- every key is compared, even after a match
  pub any_key : Bytes → List Bytes → Bool
  any_key candidate [] = false
  any_key candidate (key ∷ keys) = ct_eq key candidate || any_key candidate keys

  pub key_is_valid : ApiSecurity → Bytes → Bool
  unfolding any_key
  key_is_valid s candidate = any_key candidate s.api_keys

  pub bucket_key : ApiSecurity → Caller → Result Refusal Bytes
  unfolding auth_enabled presented key_is_valid address_bucket
  bucket_key s caller =
      if auth_enabled s
      then elim (presented caller) [
        | none ↦ err missing_header
        | some key ↦ if key_is_valid s key then ok (key_prefix ++ key) else err invalid_api_key
      ]
      else ok (address_bucket caller)

  -- `ok`: the request goes on to its handler.
  pub api_security_middleware : Caller → ℕ → ApiSecurity → Result Refusal (Unit {0}) × ApiSecurity
  unfolding bucket_key
  api_security_middleware caller now s = count_in (bucket_key s caller) now s

  any_key-contains :
      (candidate : Bytes) (keys : List Bytes)
      → ((a b : Bytes) → (ct_eq a b ≡ true) ↔ (a ≡ b))
      → any_key candidate keys ≡ contains keys candidate
  unfolding any_key
  any_key-contains candidate [] h = refl
  any_key-contains candidate (key ∷ keys) h =
      ground
        (arith, h key candidate, bytes_beq_iff key candidate, any_key-contains candidate keys h)

  -- The bucket that a request is counted in, or why it is refused before it is counted.
  pub bucket_key_lem :
      (s : ApiSecurity) (caller : Caller)
      → ((a b : Bytes) → (ct_eq a b ≡ true) ↔ (a ≡ b))
      → (s.api_keys ≡ [] → bucket_key s caller ≡ ok (address_bucket caller))
        × (auth_enabled s ≡ true
            → (presented caller ≡ none → bucket_key s caller ≡ err missing_header)
              × ((key : Bytes)
                  → presented caller ≡ some key
                  → bucket_key s caller ≡ (
                      if contains s.api_keys key
                      then ok (key_prefix ++ key)
                      else err invalid_api_key)))
  unfolding bucket_key auth_enabled key_is_valid
  bucket_key_lem s caller h = (
    λ e. rw (e) refl,
    λ e. (λ p. rw (e, p) refl, λ key p. rw (e, p, any_key-contains key s.api_keys h) refl),
  )

  pub middleware-refused :
      (caller : Caller) (refusal : Refusal) (now : ℕ) (s : ApiSecurity)
      → bucket_key s caller ≡ err refusal
      → api_security_middleware caller now s ≡ (err refusal, s)
  unfolding api_security_middleware count_in
  middleware-refused caller refusal now s b = ap (λ r. count_in r now s) b

  -- The verdict on a request that is counted in a bucket.
  pub middleware-counted :
      (caller : Caller) (key : Bytes) (now : ℕ) (s : ApiSecurity)
      → bucket_key s caller ≡ ok key
      → api_security_middleware caller now s ≡ (
        (if (try_acquire key now s.limiter).0 then ok tt else err rate_limited),
        record s { limiter = (try_acquire key now s.limiter).1 },
      )
  unfolding api_security_middleware count_in
  middleware-counted caller key now s b =
      ap (λ r. count_in r now s) b ∙ elim (Bool-cases (try_acquire key now s.limiter).0) [
        | inl e ↦ rw (e) refl
        | inr e ↦ rw (e) refl
      ]

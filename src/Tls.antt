-- ===== src/Tls.antt =====
-- tls/src/lib.rs: the settings that the environment gives. The variables' values are arguments; a
-- text is its bytes.
use parda.Base.{
  ◌≡◌, ◌↔◌, refl, ap, Option-cases, Bool, true, false, ◌≢◌, Option, none, some, List, [], ◌∷◌,
  Bytes, bytes_key, arith, ◌==◌, if◌then◌else◌, not, bytes_beq_iff, Bool-cases, inl, inr, String,
}
use parda.Result.{Result, ok, err, is_ok}
use parda.Text.{listed}

pub data TlsSettings : Type 0 where
  disabled : TlsSettings
  from_files : (cert_path key_path : Bytes) → TlsSettings
  self_signed : (subject_alt_names : List Bytes) → TlsSettings

pub data TlsError : Type 0 where
  half_configured : (which_is_set : String) → TlsError

pub record Environment : Type 0 where
  pub enabled : Option Bytes
  pub cert_path : Option Bytes
  pub key_path : Option Bytes
  pub san : Option Bytes

-- "1"
abbrev pub one : Bytes
one = 49 ∷ []

-- "localhost,127.0.0.1"
abbrev pub default_san : Bytes
default_san =
    108 ∷ 111 ∷ 99 ∷ 97 ∷ 108 ∷ 104 ∷ 111 ∷ 115 ∷ 116 ∷ 44 ∷ 49 ∷ 50 ∷ 55 ∷ 46 ∷ 48 ∷ 46 ∷ 48 ∷ 46
    ∷ 49 ∷ []

abbrev unwrap_or : Bytes → Option Bytes → Bytes
unwrap_or default none = default
unwrap_or default (some bytes) = bytes

abbrev pub files : Option Bytes → Option Bytes → Option Bytes → Result TlsError TlsSettings
files (some cert_path) (some key_path) san = ok (from_files cert_path key_path)
files none none san = ok (self_signed (listed (unwrap_or default_san san)))
files (some cert_path) none san = err (half_configured "PARDA_TLS_CERT_PATH")
files none (some key_path) san = err (half_configured "PARDA_TLS_KEY_PATH")

pub from_env : Environment → Result TlsError TlsSettings
from_env env =
    if not (unwrap_or [] env.enabled == one)
    then ok disabled
    else files env.cert_path env.key_path env.san

abbrev pub is_set : Option Bytes → Bool
is_set none = false
is_set (some bytes) = true

files_lem :
    (cert_path key_path san : Option Bytes)
    → (files cert_path key_path san ≢ ok disabled)
      × ((is_ok (files cert_path key_path san) ≡ true) ↔ (is_set cert_path ≡ is_set key_path))
files_lem (some c) (some k) san = (λ h. cc, (λ h. refl, λ h. refl))
files_lem none none san = (λ h. cc, (λ h. refl, λ h. refl))
files_lem (some c) none san = (λ h. cc, (λ h. cc, λ h. cc))
files_lem none (some k) san = (λ h. cc, (λ h. cc, λ h. cc))

-- TLS is off exactly where it is not enabled by the value 1; where it is on, the settings fail
-- exactly if one of certificate and key is set without the other.
pub from_env_iff :
    (env : Environment)
    → ((from_env env ≡ ok disabled) ↔ (env.enabled ≢ some one))
      × (env.enabled ≡ some one
          → (is_ok (from_env env) ≡ true) ↔ (is_set env.cert_path ≡ is_set env.key_path))
unfolding from_env
from_env_iff env =
    let (never, exactly) = files_lem env.cert_path env.key_path env.san in
    elim (Option-cases env.enabled) [
      | inl unset ↦ rw (from_env, unset) ((λ h e. cc, λ h. refl), λ e. cc)
      | inr (value, set) ↦ elim (Bool-cases (value == one)) [
        | inl on ↦
            rw (from_env, set, on)
              (
                (λ h. absurd (never h), λ h. absurd (h (ap some ((bytes_beq_iff value one).0 on)))),
                λ e. exactly,
              )
        | inr off ↦
            rw (from_env, set, off)
              (
                (λ h e. ground (arith, bytes_beq_iff value one), λ h. refl),
                λ e. absurd (ground (arith, bytes_beq_iff value one)),
              )
      ]
    ]

-- ===== src/Protocol/Trust/Policy.antt =====
-- The trust policy: both parties compute one fingerprint, a verified peer's key cannot change
-- silently, and an unverified peer is trusted on first use.
use parda.Base.{
  ◌≡◌, refl, ◌≢◌, ◌↔◌, ◌⊎◌, inl, inr, true, false, none, some, [], ◌∷◌, arith, Bytes, String,
  bytes_beq_iff, Option-cases, eq_iff, string_key, ap, ◌==◌, beq_refl, if◌then◌else◌,
}
use parda.HashMap.{lookup-insert, lookup-remove}
use parda.Result.{ok, err}
use parda.Protocol.Trust.{
  Hkdf, TrustStore, tofu, bytes_le, ordered, compute, verified_fingerprint, record_verified,
  forget_verification, trust_level, check_identity, fingerprint_context, digits,
}

-- Two different byte strings are in order one way round only.
bytes_le-total : (a b : Bytes) → bytes_le a b ≡ false → bytes_le b a ≡ true
unfolding bytes_le
bytes_le-total [] b h = absurd (ground arith)
bytes_le-total (x ∷ a) [] h = refl
bytes_le-total (x ∷ a) (y ∷ b) h = ground (arith, bytes_le-total a b)

bytes_le_antisymm : (a b : Bytes) → bytes_le a b ≡ true → bytes_le b a ≡ true → a ≡ b
unfolding bytes_le
bytes_le_antisymm [] [] h k = refl
bytes_le_antisymm [] (y ∷ b) h k = absurd (ground arith)
bytes_le_antisymm (x ∷ a) [] h k = absurd (ground arith)
bytes_le_antisymm (x ∷ a) (y ∷ b) h k = ground (arith, bytes_le_antisymm a b)

ordered_comm : (a b : Bytes) → ordered a b ≡ ordered b a
unfolding ordered
ordered_comm a b = ground (arith, bytes_le-total a b, bytes_le-total b a, bytes_le_antisymm a b)

-- Both parties compute the same fingerprint: whose key is local makes no difference.
pub compute_comm :
    (hkdf : Hkdf) (local remote : Bytes) → compute hkdf local remote ≡ compute hkdf remote local
unfolding compute
compute_comm hkdf local remote =
    ap (λ ikm. hkdf fingerprint_context ikm fingerprint_context) (ordered_comm local remote)

-- The check fails exactly for a peer whose recorded fingerprint is not that of the two keys.
pub check_identity_iff :
    (hkdf : Hkdf) (store : TrustStore) (peer_id : String) (local_key remote_key : Bytes)
    → (check_identity hkdf store peer_id local_key remote_key ≡ ok tt) ↔ (
        (trust_level store peer_id ≡ tofu)
        ⊎ (verified_fingerprint store peer_id ≡ some (compute hkdf local_key remote_key)))
unfolding check_identity trust_level
check_identity_iff hkdf store peer_id local_key remote_key =
    elim (Option-cases (verified_fingerprint store peer_id)) [
      | inl p ↦ (λ h. inl (ground arith), λ h. ground arith)
      | inr (f, p) ↦ (
        λ h. inr (ground (arith, bytes_beq_iff (compute hkdf local_key remote_key) f)),
        λ h. ground (arith, bytes_beq_iff (compute hkdf local_key remote_key) f),
      )
    ]

verified_fingerprint-record :
    (store : TrustStore) (peer other : String) (f : Bytes)
    → verified_fingerprint (record_verified store peer f) other
      ≡ (if peer == other then some f else verified_fingerprint store other)
unfolding verified_fingerprint record_verified
verified_fingerprint-record store peer other f = lookup-insert peer other f store

verified_fingerprint-forget :
    (store : TrustStore) (peer : String)
    → verified_fingerprint (forget_verification store peer) peer ≡ none
unfolding verified_fingerprint forget_verification
verified_fingerprint-forget store peer =
    ground (arith, lookup-remove peer peer store, beq_refl peer)

-- After a verification of one key pair, the peer is accepted with exactly the remote keys that
-- have the same fingerprint, until the verification is forgotten; then any key is accepted. Other
-- peers' levels do not change.
pub record_verified_lem :
    (hkdf : Hkdf) (store : TrustStore) (peer other : String) (local_key remote_key new_key : Bytes)
    → let store' = record_verified store peer (compute hkdf local_key remote_key) in
      ((check_identity hkdf store' peer local_key new_key ≡ ok tt)
        ↔ (compute hkdf local_key remote_key ≡ compute hkdf local_key new_key))
      × (check_identity hkdf (forget_verification store' peer) peer local_key new_key ≡ ok tt)
      × (peer ≢ other → trust_level store' other ≡ trust_level store other)
unfolding trust_level check_identity
record_verified_lem hkdf store peer other local_key remote_key new_key =
    let f = compute hkdf local_key remote_key in
    let g = compute hkdf local_key new_key in
    let found : verified_fingerprint (record_verified store peer f) peer ≡ some f =
      ground (arith, verified_fingerprint-record store peer peer f, beq_refl peer) in
    (
      (λ h. ground (arith, bytes_beq_iff g f), λ h. ground (arith, bytes_beq_iff g f)),
      ground (arith, verified_fingerprint-forget (record_verified store peer f) peer),
      λ ne. ground (arith, verified_fingerprint-record store peer other f, eq_iff peer other),
    )

-- What the check reports on a peer with a verification of other keys.
pub check_identity_changed :
    (hkdf : Hkdf) (store : TrustStore) (peer_id : String) (local_key remote_key fingerprint : Bytes)
    → verified_fingerprint store peer_id ≡ some fingerprint
    → compute hkdf local_key remote_key ≢ fingerprint
    → check_identity hkdf store peer_id local_key remote_key
      ≡ err (record {
        peer_id = peer_id;
        verified_digits = digits fingerprint;
        observed_digits = digits (compute hkdf local_key remote_key);
      })
unfolding check_identity
check_identity_changed hkdf store peer_id local_key remote_key fingerprint f ne =
    ground (arith, bytes_beq_iff (compute hkdf local_key remote_key) fingerprint)

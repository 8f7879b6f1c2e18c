-- ===== src/Protocol/Store/Burn.antt =====
-- A burnt conversation, and trust on first use.
use parda.Base.{
  ◌≡◌, refl, ◌∙◌, ◌≢◌, true, false, none, some, arith, String, Bytes, string_key, bytes_key,
  bytes_beq_iff, eq_iff, ◌==◌, beq_refl, Option-cases, inl, inr,
}
use parda.HashMap.{lookup, insert, lookup-remove, lookup-insert, contains_key-remove}
use parda.Protocol.Store.{
  StoreState, is_some, burn_session, has_conversation_state, load_session, save_identity,
  is_trusted_identity, get_identity,
}

-- Burning an address reports what was there and leaves neither session nor identity, so that any
-- key is trusted and new again; other addresses' sessions and identities, the device's own keys
-- and the prekeys stay.
pub burn_session_lem :
    (address other : String) (identity : Bytes) (s : StoreState)
    → let (result, s') = burn_session address s in
      (result.session_removed ≡ is_some (load_session address s))
      × (result.identity_trust_removed ≡ is_some (get_identity address s))
      × (load_session address s' ≡ none)
      × (get_identity address s' ≡ none)
      × (has_conversation_state address s' ≡ false)
      × (is_trusted_identity address identity s' ≡ true)
      × ((save_identity address identity s').0 ≡ true)
      × (address ≢ other
          → (load_session other s' ≡ load_session other s)
            × (get_identity other s' ≡ get_identity other s)
            × (has_conversation_state other s' ≡ has_conversation_state other s))
      × (s' ≡ record s { sessions = s'.sessions; trusted_identities = s'.trusted_identities })
unfolding burn_session load_session get_identity has_conversation_state is_trusted_identity
    save_identity
burn_session_lem address other identity s =
    let gone : lookup address (burn_session address s).1.sessions ≡ none =
      lookup-remove address address s.sessions ∙ rw (beq_refl address) refl in
    let untrusted : lookup address (burn_session address s).1.trusted_identities ≡ none =
      lookup-remove address address s.trusted_identities ∙ rw (beq_refl address) refl in
    (
      refl,
      refl,
      gone,
      untrusted,
      rw
          (
            contains_key-remove address address s.sessions,
            contains_key-remove address address s.trusted_identities,
            beq_refl address,
          )
          refl,
      rw (untrusted) refl,
      rw (untrusted) refl,
      λ ne. ground (
        arith,
        eq_iff address other,
        lookup-remove address other s.sessions,
        lookup-remove address other s.trusted_identities,
        contains_key-remove address other s.sessions,
        contains_key-remove address other s.trusted_identities,
      ),
      refl,
    )

-- Saving an identity reports whether the address had none or another; afterwards exactly that key
-- is trusted there, saving it again reports no change, and other addresses trust as before.
pub save_identity_lem :
    (address other : String) (identity asked : Bytes) (s : StoreState)
    → let (changed, s') = save_identity address identity s in
      ((changed ≡ false → get_identity address s ≡ some identity)
        × (get_identity address s ≡ some identity → changed ≡ false))
      × (is_trusted_identity address asked s' ≡ (identity == asked))
      × ((save_identity address identity s').0 ≡ false)
      × (address ≢ other → is_trusted_identity other asked s' ≡ is_trusted_identity other asked s)
unfolding get_identity is_trusted_identity save_identity
save_identity_lem address other identity asked s =
    let stored : lookup address (insert address identity s.trusted_identities) ≡ some identity =
      lookup-insert address address identity s.trusted_identities ∙ rw (beq_refl address) refl in
    (
      elim (Option-cases (lookup address s.trusted_identities)) [
        | inl e ↦ rw (e) ((λ h. cc), (λ h. cc))
        | inr (key, e) ↦ rw (e) (
          (λ h. ground (arith, bytes_beq_iff key identity)),
          (λ h. ground (arith, bytes_beq_iff key identity)),
        )
      ],
      rw (stored) refl,
      rw (stored, beq_refl identity) refl,
      λ ne.
          ground (
            arith,
            eq_iff address other,
            lookup-insert address other identity s.trusted_identities,
          ),
    )

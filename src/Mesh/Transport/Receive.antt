-- ===== src/Mesh/Transport/Receive.antt =====
-- Receiving: what it returns was addressed to the window, and the watermark follows the claims.
use parda.Base.{
  ℕ, zero, suc, ◌+◌, ◌-◌, ◌%◌, ◌≤◌, ◌<◌, ◌^◌, ◌≡◌, refl, ap, sym, ◌∙◌, Bool, true, false, ◌||◌,
  some, List, [], ◌∷◌, map, arith, Bytes, length, min, All, contains, nat_key, bytes_key,
  bytes_beq_iff, Option-cases, inl, inr,
}
use parda.Result.{ok, Result-cases}
use parda.Protocol.Envelope.{MessageEnvelope, u64_mod}
use parda.Protocol.DeadDrop.{address_for, address_window, count_from}
use parda.Mesh.Bundle.{Codec, unwrap}
use parda.Mesh.Relay.{take_for_addresses}
use parda.Mesh.Transport.{
  MeshTransport, ReceiveState, insert_claims, position, claim_all, claims, receive, claim_of,
  envelope_of, poll_set_of,
}
use parda.Mesh.Transport.Claims.{
  is_claimed, advance_lem, contains-insert_claims, length-insert_claims,
}
use parda.Mesh.Relay.Contents.{length-take_for_addresses}

-- The address at a place of the window.
abbrev pub IsAt : List Bytes → ℕ → Bytes → Type 0
IsAt [] n address = Path Bool true false
IsAt (a ∷ addresses) zero address = a ≡ address
IsAt (a ∷ addresses) (suc n) address = IsAt addresses n address

position-IsAt :
    (addresses : List Bytes) (address : Bytes) (n : ℕ)
    → position addresses address ≡ some n
    → IsAt addresses n address
unfolding position
position-IsAt [] address n h = cc
position-IsAt (a ∷ addresses) address zero h = ground (arith, bytes_beq_iff a address)
position-IsAt (a ∷ addresses) address (suc n) h = elim (Option-cases (position addresses address)) [
  | inl nowhere ↦ ground arith
  | inr (m, there) ↦ ground (arith, position-IsAt addresses address n)
]

module _ (expand : Bytes → Bytes → Bytes) (tag_key : Bytes) where
  IsAt-count_from :
      (count from n : ℕ) (address : Bytes)
      → IsAt (map (address_for expand tag_key) (count_from from count)) n address
      → (n < count) × (address_for expand tag_key (from + n) ≡ address)
  unfolding count_from
  IsAt-count_from zero from n address h = cc
  IsAt-count_from (suc count) from zero address h =
      let same : from + 0 ≡ from = omega arith in
      (omega arith, ap (address_for expand tag_key) same ∙ h)
  IsAt-count_from (suc count) from (suc n) address h =
      let (below, at) = IsAt-count_from count (suc from) n address h in
      let same : from + suc n ≡ suc from + n = omega arith in
      (omega arith, ap (address_for expand tag_key) same ∙ at)

  -- A place of the window is a number of the window, and no addition wraps there.
  position-address_window :
      (start window n : ℕ) (address : Bytes)
      → position (address_window expand tag_key start window) address ≡ some n
      → ((start + n) % u64_mod ≡ start + n)
        × (n < window)
        × (address_for expand tag_key (start + n) ≡ address)
  unfolding address_window
  position-address_window start window n address h =
      let count = min (start + window) (u64_mod - 1) - start in
      let (below, at) =
        IsAt-count_from count start n address
          (position-IsAt (map (address_for expand tag_key) (count_from start count)) address n h) in
      (ground arith, ground arith, at)

  module _ (c : Codec) where
    -- An envelope that claims a number of the window comes from one of the bundles taken, which was
    -- for the address of that number.
    abbrev pub IsClaim : ℕ → ℕ → List Bytes → ℕ × MessageEnvelope → Type 0
    IsClaim start window taken (n, envelope) =
        (start ≤ n)
        × (n < start + window)
        × ((bytes : Bytes) × (contains taken bytes ≡ true)
            × (unwrap c bytes ≡ ok (address_for expand tag_key n, envelope)))

    All-IsClaim-later :
        (start window : ℕ) (b : Bytes) (taken : List Bytes) (found : List (ℕ × MessageEnvelope))
        → All (IsClaim start window taken) found
        → All (IsClaim start window (b ∷ taken)) found
    All-IsClaim-later start window b taken [] all = tt
    All-IsClaim-later start window b taken (claim ∷ found) all =
        let (low, high, (bytes, held, opened)) = all.0 in
        (
          (low, high, (bytes, ground arith, opened)),
          All-IsClaim-later start window b taken found all.1,
        )

    length-claim_all :
        (start : ℕ) (addresses taken : List Bytes)
        → length (map claim_of (claim_all c start addresses taken)) ≤ length taken
    unfolding claim_all
    length-claim_all start addresses [] = omega arith
    length-claim_all start addresses (b ∷ taken) = elim (Result-cases (unwrap c b)) [
      | inl (e, bad) ↦ ground (arith, length-claim_all start addresses taken)
      | inr ((address, envelope), opened) ↦ elim (Option-cases (position addresses address)) [
        | inl decoy ↦ ground (arith, length-claim_all start addresses taken)
        | inr (n, there) ↦ ground (arith, length-claim_all start addresses taken)
      ]
    ]

    claim_all-All :
        (start window : ℕ) (taken : List Bytes)
        → All
            (IsClaim start window taken)
            (claim_all c start (address_window expand tag_key start window) taken)
    unfolding claim_all
    claim_all-All start window [] = tt
    claim_all-All start window (b ∷ taken) =
        let addresses = address_window expand tag_key start window in
        let rest =
          All-IsClaim-later start window b taken (claim_all c start addresses taken)
            (claim_all-All start window taken) in
        elim (Result-cases (unwrap c b)) [
          | inl (e, bad) ↦ rw (claim_all, bad) rest
          | inr ((address, envelope), opened) ↦ elim (Option-cases (position addresses address)) [
            | inl decoy ↦ rw (claim_all, opened, decoy) rest
            | inr (n, there) ↦
                let (straight, below, at) = position-address_window start window n address there in
                rw (claim_all, opened, there, straight)
                  (
                    (
                      omega arith,
                      omega arith,
                      (
                        b,
                        ground (arith, bytes_beq_iff b b),
                        opened ∙ ap (λ a. ok (a, envelope)) (sym at),
                      ),
                    ),
                    rest,
                  )
          ]
        ]

module _ (expand : Bytes → Bytes → Bytes) (c : Codec) where
  -- Receiving never fails. It returns the envelopes of its claims; every claim is on a number of
  -- the window at the watermark, by an envelope out of a bundle that the relay handed over for that
  -- number's address. Where the watermark, the claims ahead and the bundles held together stay below
  -- 2 ^ 64, the watermark ends on an unclaimed
  -- number, not lower than before, and exactly the numbers claimed now or before are claimed.
  pub receive_lem :
      (random_decoy_address : ℕ → Bytes) (shuffle : List Bytes → List Bytes) (t : MeshTransport)
      → t.receive_state.low_watermark
          + (length t.receive_state.claimed_ahead + length t.relay.store.by_hash)
        < 2 ^ 64
      → let poll_set = poll_set_of expand c random_decoy_address shuffle t in
        let found = claims expand c poll_set t in
        let (r, t') = receive expand c random_decoy_address shuffle t in
        let old = t.receive_state in
        (r ≡ ok (map envelope_of found))
        × All
            (IsClaim expand t.tag_key c old.low_watermark t.window
              (take_for_addresses poll_set t.relay).0)
            found
        × (is_claimed t'.receive_state.low_watermark t'.receive_state ≡ false)
        × (old.low_watermark ≤ t'.receive_state.low_watermark)
        × ((n : ℕ)
            → is_claimed n t'.receive_state ≡ (is_claimed n old || contains (map claim_of found) n))
  unfolding receive claims
  receive_lem random_decoy_address shuffle t bound =
      let old = t.receive_state in
      let poll_set = poll_set_of expand c random_decoy_address shuffle t in
      let numbers = map claim_of (claims expand c poll_set t) in
      let ahead = insert_claims numbers old.claimed_ahead in
      let state : ReceiveState = record old { claimed_ahead = ahead } in
      let taken = (take_for_addresses poll_set t.relay).0 in
      let addresses = address_window expand t.tag_key old.low_watermark t.window in
      let few : old.low_watermark + length ahead < 2 ^ 64 = ground (
        arith,
        length-insert_claims numbers old.claimed_ahead,
        length-claim_all expand t.tag_key c old.low_watermark addresses taken,
        length-take_for_addresses poll_set t.relay,
      ) in
      let (unclaimed, risen, same) = advance_lem (length ahead) state (omega arith) few in
      (
        refl,
        claim_all-All expand t.tag_key c old.low_watermark t.window
            (take_for_addresses poll_set t.relay).0,
        unclaimed,
        risen,
        λ n. ground (arith, same n, contains-insert_claims numbers old.claimed_ahead n),
      )

-- ===== src/Mesh/Transport/Finds.antt =====
-- What a receiving does not miss: a bundle that the relay holds for a number of the window.
use mathlib.Core.List.{Mem, mem-cons_self, mem-cons_of_mem}
use parda.Base.{
  ℕ, ◌+◌, ◌-◌, ◌≤◌, ◌<◌, ◌≡◌, refl, ap, ◌∙◌, true, false, none, some, List, [], ◌∷◌, map, arith,
  Bytes, contains, keep_if, bytes_key, bytes_beq_iff, Option-cases, Bool-cases, inl, inr, ◌==◌, min,
  length,
}
use parda.HashMap.{HashMap, lookup}
use parda.Result.{ok, Result-cases}
use parda.Protocol.Envelope.{MessageEnvelope, u64_mod}
use parda.Protocol.DeadDrop.{
  address_for, address_window, build_poll_set_lem, contains-map-count_from,
}
use parda.Mesh.Bundle.{Codec, unwrap}
use parda.Mesh.Relay.{
  StoredBundle, take_for_addresses, bundles_for_addresses, is_wanted, entry_bytes,
}
use parda.Mesh.Relay.Invariant.{IsValid}
use parda.Mesh.Relay.Contents.{take_for_addresses_lem}
use parda.Mesh.Transport.{
  MeshTransport, position, claim_all, claims, receive, envelope_of, poll_set_of,
}

position-none :
    (addresses : List Bytes) (a : Bytes)
    → position addresses a ≡ none
    → contains addresses a ≡ false
unfolding position
position-none [] a h = refl
position-none (x ∷ addresses) a h = elim (Option-cases (position addresses a)) [
  | inl nowhere ↦ ground (arith, position-none addresses a)
  | inr (n, there) ↦ ground (arith, there)
]

contains-bundles :
    (addresses : List Bytes) (m : HashMap Bytes StoredBundle) (h : Bytes) (b : StoredBundle)
    → lookup h m ≡ some b
    → contains addresses b.address ≡ true
    → contains (map entry_bytes (keep_if (is_wanted addresses) m)) b.bytes ≡ true
contains-bundles addresses [] h b found wanted = cc
contains-bundles addresses ((k, w) ∷ m) h b found wanted =
    ground (arith, contains-bundles addresses m h b, bytes_beq_iff w.bytes b.bytes)

module _ (c : Codec) (start : ℕ) (addresses : List Bytes) where
  claim_all-Mem :
      (taken : List Bytes) (bytes address : Bytes) (e : MessageEnvelope)
      → contains taken bytes ≡ true
      → unwrap c bytes ≡ ok (address, e)
      → contains addresses address ≡ true
      → Mem e (map envelope_of (claim_all c start addresses taken))
  unfolding claim_all
  claim_all-Mem [] bytes address e inside opened known = cc
  claim_all-Mem (b ∷ taken) bytes address e inside opened known = elim (Bool-cases (b == bytes)) [
    | inl same ↦ elim (Option-cases (position addresses address)) [
      | inl nowhere ↦ absurd (ground (arith, position-none addresses address))
      | inr (n, there) ↦
          let own : unwrap c b ≡ ok (address, e) =
            ap (unwrap c) ((bytes_beq_iff b bytes).0 same) ∙ opened in
          rw (claim_all, own, there) mem-cons_self
    ]
    | inr other ↦
        let rest =
          claim_all-Mem taken bytes address e (ground (arith, other, inside)) opened known in
        elim (Result-cases (unwrap c b)) [
          | inl (failure, bad) ↦ rw (claim_all, bad) rest
          | inr ((a, found), good) ↦ elim (Option-cases (position addresses a)) [
            | inl decoy ↦ rw (claim_all, good, decoy) rest
            | inr (n, there) ↦ rw (claim_all, good, there) (mem-cons_of_mem _ rest)
          ]
        ]
  ]

module _ (expand : Bytes → Bytes → Bytes) (c : Codec) (sha256 : Bytes → Bytes) where
  -- Where the shuffle only reorders and the window ends within the 64-bit range: an envelope that
  -- the relay holds in a bundle for the address of a number of the window is received.
  pub receive-Mem :
      (random_decoy_address : ℕ → Bytes) (shuffle : List Bytes → List Bytes) (t : MeshTransport)
      (n : ℕ) (h : Bytes) (held : StoredBundle) (e : MessageEnvelope)
      → ((xs : List Bytes) → length (shuffle xs) ≡ length xs)
      → ((xs : List Bytes) (a : Bytes) → contains (shuffle xs) a ≡ contains xs a)
      → IsValid sha256 t.relay
      → t.receive_state.low_watermark ≤ n
      → n < t.receive_state.low_watermark + t.window
      → t.receive_state.low_watermark + t.window < u64_mod
      → lookup h t.relay.store.by_hash ≡ some held
      → held.address ≡ address_for expand t.tag_key n
      → unwrap c held.bytes ≡ ok (address_for expand t.tag_key n, e)
      → (envelopes : List MessageEnvelope) × ((receive expand c random_decoy_address shuffle t).0
          ≡ ok envelopes)
        × Mem e envelopes
  unfolding receive claims address_window bundles_for_addresses
  receive-Mem random_decoy_address shuffle t n h held e sized kept v low high bound found addressed
        opened =
      let start = t.receive_state.low_watermark in
      let poll_set = poll_set_of expand c random_decoy_address shuffle t in
      let (polled, _) =
        build_poll_set_lem expand random_decoy_address shuffle t.tag_key start t.window
          t.decoys_per_real sized kept bound in
      let (same, _, _) = take_for_addresses_lem sha256 poll_set t.relay v in
      let taken = (take_for_addresses poll_set t.relay).0 in
      let wanted : contains poll_set held.address ≡ true =
        ap (contains poll_set) addressed ∙ polled n low high in
      let inside : contains taken held.bytes ≡ true =
        ap (λ bs. contains bs held.bytes) same
        ∙ contains-bundles poll_set t.relay.store.by_hash h held found wanted in
      (
        map envelope_of (claims expand c poll_set t),
        refl,
        claim_all-Mem c start (address_window expand t.tag_key start t.window) taken held.bytes
            (address_for expand t.tag_key n) e inside opened
            (contains-map-count_from expand t.tag_key (min (start + t.window) (u64_mod - 1) - start)
              start n low (omega arith)),
      )

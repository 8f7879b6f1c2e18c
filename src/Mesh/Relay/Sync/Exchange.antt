-- ===== src/Mesh/Relay/Sync/Exchange.antt =====
-- Two relays that run `sync_with_peer` against each other: what each of them says, and that the two
-- sessions fit together.
use mathlib.Core.List.{append_assoc, append-nil}
use parda.Base.{ℕ, suc, ◌+◌, ◌≡◌, refl, ap, ◌∙◌, List, [], ◌∷◌, ◌++◌, map, arith, Bytes, length}
use parda.Result.{ok}
use parda.Mesh.Error.{MeshResult}
use parda.Mesh.Bundle.{Codec}
use parda.Mesh.Relay.{MeshRelayAgent, sweep_expired}
use parda.Mesh.Relay.Sync.{
  SyncMessage, have, want, bundle, done, Inbox, Session, send_msg, send_on, recv_msg, recv_from,
  send_all, offer, receive_loop, receive_bundles, sync_with_peer, my_hashes, wanted, to_send,
}

-- what a relay asks of a peer
abbrev pub asks : MeshRelayAgent → MeshRelayAgent → List Bytes
asks a b = wanted a.config.max_bundles_per_session (my_hashes a) (my_hashes b)

-- what a relay hands to a peer
abbrev pub hands : MeshRelayAgent → MeshRelayAgent → List Bytes
hands a b = to_send a (asks b a)

-- everything that a relay says to a peer in one session
abbrev pub says : MeshRelayAgent → MeshRelayAgent → List SyncMessage
says a b = have (my_hashes a) ∷ want (asks a b) ∷ map bundle (hands a b) ++ done ∷ []

-- The messages as they come in, the `i`-th at the time `clock i`.
abbrev pub stamped : (ℕ → ℕ) → ℕ → List SyncMessage → Inbox
stamped clock i [] = []
stamped clock i (m ∷ ms) = (clock i, ok m) ∷ stamped clock (suc i) ms

abbrev pub session_of : MeshRelayAgent → Inbox → List SyncMessage → ℕ → Session
session_of a inbox outbox sendable = record {
  agent = a;
  link = record { inbox = inbox; outbox = outbox; sendable = sendable };
}

send_all-enough :
    (a : MeshRelayAgent) (inbox : Inbox) (bs : List Bytes) (outbox : List SyncMessage) (n : ℕ)
    → send_all bs (session_of a inbox outbox (length bs + n))
      ≡ (ok tt, session_of a inbox (outbox ++ map bundle bs) n)
unfolding send_all send_msg send_on
send_all-enough a inbox [] outbox n =
    let same : 0 + n ≡ n = omega arith in rw (append-nil, same) refl
send_all-enough a inbox (b ∷ bs) outbox n =
    let shift : suc (length bs) + n ≡ suc (length bs + n) = omega arith in
    rw shift (
      send_all-enough a inbox bs (outbox ++ bundle b ∷ []) n
      ∙ ap (λ o. (ok tt, session_of a inbox o n))
          (append_assoc outbox (bundle b ∷ []) (map bundle bs)))

-- A relay that a peer tells what it holds and what it wants, over a link that takes its messages,
-- says all it has to say.
offer-enough :
    (a b : MeshRelayAgent) (t u n : ℕ) (rest : Inbox)
    → offer (
        session_of a
          ((t, ok (have (my_hashes b))) ∷ (u, ok (want (asks b a))) ∷ rest)
          []
          (suc (suc (length (hands a b) + suc n))))
      ≡ (ok tt, session_of a rest (says a b) n)
unfolding offer send_msg send_on recv_msg recv_from
offer-enough a b t u n rest =
    rw (send_all-enough a rest (hands a b) (have (my_hashes a) ∷ want (asks a b) ∷ []) (suc n)) refl

module _ (c : Codec) (sha256 : Bytes → Bytes) (clock : ℕ → ℕ) where
  -- what a relay has admitted of the bundles that a peer hands over
  abbrev pub takes_in : MeshRelayAgent → List Bytes → MeshResult ℕ × MeshRelayAgent × Inbox
  takes_in a bytes =
      receive_loop c sha256 (stamped clock 2 (map bundle bytes ++ done ∷ [])) 0
        a.config.max_bundles_per_session a

  -- A session with a peer that says what a relay in the state `b` says, over a link that takes all
  -- messages of this side: after its sweep the relay says all that it says to `b`, and ends with
  -- what the receive loop makes of `b`'s bundles.
  pub sync_with_peer-says :
      (now_ms n : ℕ) (a b : MeshRelayAgent)
      → let swept = sweep_expired now_ms a in
        let (r, after, rest) = takes_in swept (hands b swept) in
        sync_with_peer c sha256 now_ms (
          session_of a
            (stamped clock 0 (says b swept))
            []
            (suc (suc (length (hands swept b) + suc n))))
        ≡ (r, session_of after rest (says swept b) n)
  unfolding sync_with_peer receive_bundles
  sync_with_peer-says now_ms n a b =
      let swept = sweep_expired now_ms a in
      rw
        (offer-enough swept b (clock 0) (clock 1) n
          (stamped clock 2 (map bundle (hands b swept) ++ done ∷ [])))
        refl

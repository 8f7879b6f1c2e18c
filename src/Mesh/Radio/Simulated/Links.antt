-- ===== src/Mesh/Radio/Simulated/Links.antt =====
-- A connection on the simulated air carries messages in order to the device that accepts it.
use mathlib.Core.List.{append-nil, append_assoc}
use parda.Base.{
  ℕ, zero, suc, ◌+◌, ◌≡◌, refl, ap, sym, ◌∙◌, true, some, List, [], ◌∷◌, ◌++◌, Bytes, arith,
  nat_key, length, beq_refl,
}
use parda.Result.{ok, ◌>>=◌}
use parda.HashMap.{HashMap, lookup, insert, lookup-insert}
use parda.Mesh.Error.{MeshResult}
use parda.Mesh.Radio.Simulated.{
  DeviceIndex, DeviceState, SimLink, Channel, SimNetwork, Wait, ready, waiting, closed, reachable,
  connect, accept, send, recv, open_channel,
}

pub send_all : SimLink → List Bytes → SimNetwork → MeshResult SimNetwork
send_all l [] net = ok net
send_all l (bytes ∷ messages) net = send l bytes net >>= send_all l messages

abbrev prepend : Bytes → Wait (List Bytes × SimNetwork) → Wait (List Bytes × SimNetwork)
prepend bytes (ready (messages, net)) = ready (bytes ∷ messages, net)
prepend bytes waiting = waiting
prepend bytes (closed e) = closed e

pub recv_all : ℕ → SimLink → SimNetwork → Wait (List Bytes × SimNetwork)
recv_all zero l net = ready ([], net)
recv_all (suc n) l net = elim (recv l net) [
  | ready (bytes, net') ↦ prepend bytes (recv_all n l net')
  | waiting ↦ waiting
  | closed e ↦ closed e
]

lookup-insert_same :
    (c : ℕ) (ch : Channel) (channels : HashMap ℕ Channel)
    → lookup c (insert c ch channels) ≡ some ch
lookup-insert_same c ch channels = lookup-insert c c ch channels ∙ rw (beq_refl c) refl

send_all_lem :
    (l : SimLink) (messages : List Bytes) (net : SimNetwork) (ch : Channel)
    → lookup l.tx net.channels ≡ some ch
    → ch.receiver_open ≡ true
    → (net' : SimNetwork) × (send_all l messages net ≡ ok net')
      × (lookup l.tx net'.channels ≡ some (record ch { queue = ch.queue ++ messages }))
unfolding send_all send
send_all_lem l [] net ch h o =
    (net, refl, h ∙ ap (λ q. some (record ch { queue = q })) (sym (append-nil ch.queue)))
send_all_lem l (bytes ∷ messages) net ch h o =
    let ch' : Channel = record ch { queue = ch.queue ++ bytes ∷ [] } in
    let net' : SimNetwork = record net { channels = insert l.tx ch' net.channels } in
    let sent : send l bytes net ≡ ok net' = rw (send, h, o) refl in
    let (last, all, queued) =
      send_all_lem l messages net' ch' (lookup-insert_same l.tx ch' net.channels) o in
    (
      last,
      rw (sent, all),
      queued
          ∙ ap (λ q. some (record ch { queue = q })) (append_assoc ch.queue (bytes ∷ []) messages),
    )

recv_all_lem :
    (l : SimLink) (messages rest : List Bytes) (net : SimNetwork) (ch : Channel)
    → lookup l.rx net.channels ≡ some ch
    → ch.queue ≡ messages ++ rest
    → (net' : SimNetwork) × (recv_all (length messages) l net ≡ ready (messages, net'))
unfolding recv_all recv
recv_all_lem l [] rest net ch h q = (net, refl)
recv_all_lem l (bytes ∷ messages) rest net ch h q =
    let ch' : Channel = record ch { queue = messages ++ rest } in
    let net' : SimNetwork = record net { channels = insert l.rx ch' net.channels } in
    let received : recv l net ≡ ready (bytes, net') = rw (recv, h, q) refl in
    let (last, all) =
      recv_all_lem l messages rest net' ch' (lookup-insert_same l.rx ch' net.channels) refl in
    (last, rw (recv_all, received, all))

-- Where one device reaches another that has no connection waiting, connecting succeeds, the other's
-- next acceptance gives the other end, and whatever is then sent over the one end is received at
-- the other, every message once and in order.
pub connect_lem :
    (a b : DeviceIndex) (messages : List Bytes) (net : SimNetwork) (state : DeviceState)
    → reachable a b net ≡ true
    → lookup b net.devices ≡ some state
    → state.accept_queue ≡ []
    → (mine theirs : SimLink) × (net₁ net₂ net₃ net₄ : SimNetwork) × (connect a b net
        ≡ ok (mine, net₁))
      × (accept b net₁ ≡ ready (theirs, net₂))
      × (send_all mine messages net₂ ≡ ok net₃)
      × (recv_all (length messages) theirs net₃ ≡ ready (messages, net₄))
unfolding connect accept
connect_lem a b messages net state r found idle =
    let mine : SimLink = record { tx = net.next_channel; rx = net.next_channel + 1 } in
    let theirs : SimLink = record { tx = net.next_channel + 1; rx = net.next_channel } in
    let channels = insert mine.rx open_channel (insert mine.tx open_channel net.channels) in
    let called : DeviceState = record state { accept_queue = theirs ∷ [] } in
    let taken : DeviceState = record state { accept_queue = [] } in
    let devices = insert b called net.devices in
    let net₁ : SimNetwork = record net {
      channels = channels;
      next_channel = net.next_channel + 2;
      devices = devices;
    } in
    let net₂ : SimNetwork = record net₁ { devices = insert b taken devices } in
    let waits : lookup b devices ≡ some called =
      lookup-insert b b called net.devices ∙ rw (beq_refl b) refl in
    let opened : lookup mine.tx channels ≡ some open_channel =
      lookup-insert mine.rx mine.tx open_channel (insert mine.tx open_channel net.channels)
      ∙ ground (arith, lookup-insert_same mine.tx open_channel net.channels) in
    let (net₃, sent, queued) = send_all_lem mine messages net₂ open_channel opened refl in
    let (net₄, received) =
      recv_all_lem theirs messages [] net₃ (record open_channel { queue = messages }) queued
        (sym (append-nil messages)) in
    (
      mine,
      theirs,
      net₁,
      net₂,
      net₃,
      net₄,
      rw (connect, r, found, idle) refl,
      rw (accept, waits) refl,
      sent,
      received,
    )

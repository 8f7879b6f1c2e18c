-- ===== src/Bridge/Radio.antt =====
-- mobile-bridge/src/radio.rs and the callbacks of mobile-bridge/src/jni_exports.rs: each operation
-- registers a slot, calls the platform and waits for the slot. The platform is a parameter that says
-- whether its call goes through; the two halves of an operation are two functions.
use parda.Base.{
  ℕ, ◌+◌, ◌*◌, Bool, true, false, Option, none, some, List, [], ◌∷◌, String, Bytes, length, nat_beq,
  nat_key, if◌then◌else◌,
}
use parda.HashMap.{lookup}
use parda.Result.{ok, err}
use parda.Protocol.SelfDestruct.{be_bytes}
use parda.Mesh.Error.{MeshError, MeshResult, radio_unavailable, peer_unreachable, link}
use parda.Mesh.Radio.{AdvertToken, to_wire, advert_token_len}
use parda.Mesh.Radio.Simulated.{Wait, ready, closed}
use parda.Bridge.{
  OneshotResult, bytes, empty, failed, Slot, answered, ScanResultBytes, Pending, next_request,
  register_oneshot, resolve_oneshot, register_stream, push_stream,
}

-- the calls into `MeshBridge`
pub data Call : Type 0 where
  start_advertise : Bytes → Call
  start_scan stop_scan : Call
  connect : Bytes → Call
  accept : Call
  link_send : ℕ → Bytes → Call
  link_recv : ℕ → Call

-- the pure result of an answer
unfoldable pub oneshot_to_mesh_result : OneshotResult → MeshResult Bytes
oneshot_to_mesh_result (bytes b) = ok b
oneshot_to_mesh_result empty = ok []
oneshot_to_mesh_result (failed e) = err (radio_unavailable e)

-- `rx.await`: a slot that is not there is a channel whose sender is gone.
unfoldable pub await_slot : MeshError → ℕ → Pending → Wait (MeshResult Bytes)
unfolding oneshot_to_mesh_result
await_slot gone id p = elim (lookup id p.oneshots) [
  | none ↦ closed gone
  | some slot ↦ elim slot [
    | Slot.waiting ↦ Wait.waiting
    | answered result ↦ ready (oneshot_to_mesh_result result)
  ]
]

-- `i64::from_be_bytes` of a handle's bytes, which must be eight
unfoldable pub from_be : ℕ → Bytes → ℕ
from_be n [] = n
from_be n (b ∷ rest) = from_be (n * 256 + b) rest

unfoldable pub handle_of : MeshError → MeshResult Bytes → MeshResult ℕ
unfolding from_be
handle_of malformed (err e) = err e
handle_of malformed (ok b) = if nat_beq (length b) 8 then ok (from_be 0 b) else err malformed

module _ (platform : ℕ → Call → Bool) where
  -- The first half of an operation. Where the call fails the slot stays registered.
  unfoldable pub request : MeshError → Call → Pending → MeshResult ℕ × Pending
  request refusal call p =
      let (id, p') = next_request p in
      let registered = register_oneshot id p' in
      (if platform id call then ok id else err refusal, registered)

  pub advertise_start : AdvertToken → Pending → MeshResult ℕ × Pending
  unfolding request
  advertise_start token =
      request (radio_unavailable "JNI startAdvertise failed") (start_advertise (to_wire token))

  pub connect_start : Option Bytes → Pending → MeshResult ℕ × Pending
  unfolding request
  connect_start none p = (err peer_unreachable, p)
  connect_start (some peer_handle) p = request (link "JNI connect failed") (connect peer_handle) p

  pub accept_start : Pending → MeshResult ℕ × Pending
  unfolding request
  accept_start = request (radio_unavailable "JNI accept failed") accept

  pub send_start : ℕ → Bytes → Pending → MeshResult ℕ × Pending
  unfolding request
  send_start link_handle message = request (link "JNI send failed") (link_send link_handle message)

  pub recv_start : ℕ → Pending → MeshResult ℕ × Pending
  unfolding request
  recv_start link_handle = request (link "JNI recv failed") (link_recv link_handle)

  pub scan_start : Pending → MeshResult ℕ × Pending
  scan_start p =
      let (id, p') = next_request p in
      (
        if platform id start_scan then ok id else err (radio_unavailable "JNI startScan failed"),
        register_stream id p',
      )

-- The sightings that a scan passes on: a token of another length is skipped.
pub sightings : List ScanResultBytes → List ScanResultBytes
sightings [] = []
sightings (s ∷ rest) =
    let passed = sightings rest in
    if nat_beq (length s.token) advert_token_len then s ∷ passed else passed

-- the callbacks: an error is a message or none
pub on_advertise_result : ℕ → Bool → Option String → Pending → Pending
on_advertise_result id true error = resolve_oneshot id empty
on_advertise_result id false none = resolve_oneshot id (failed "advertise failed (no message)")
on_advertise_result id false (some message) = resolve_oneshot id (failed message)

unfoldable pub on_connect_result : ℕ → ℕ → Option String → Pending → Pending
on_connect_result id link_handle (some message) = resolve_oneshot id (failed message)
on_connect_result id link_handle none = resolve_oneshot id (bytes (be_bytes 8 link_handle))

pub on_send_result : ℕ → Option String → Pending → Pending
on_send_result id (some message) = resolve_oneshot id (failed message)
on_send_result id none = resolve_oneshot id empty

-- `none` for bytes that do not read
pub on_recv_result : ℕ → Option Bytes → Option String → Pending → Pending
on_recv_result id received (some message) = resolve_oneshot id (failed message)
on_recv_result id (some received) none = resolve_oneshot id (bytes received)
on_recv_result id none none = resolve_oneshot id (failed "failed to read recv bytes")

pub on_scan_result : ℕ → Option Bytes → Option Bytes → Pending → Pending
on_scan_result id (some peer_handle) (some token) =
    push_stream id (record { peer_handle = peer_handle; token = token })
on_scan_result id _ _ = λ p. p

-- ===== src/Bridge/Answers.antt =====
-- Which callback answers a request, and the handle of a link on its way through the platform.
use parda.Base.{
  ℕ, suc, ◌+◌, ◌<◌, ◌≡◌, ap, ◌∙◌, Bool, Option, none, some, List, [], ◌∷◌, arith, Bytes, nat_key,
  nat_beq, if◌then◌else◌, Bool-cases, Option-cases, inl, inr,
}
use parda.HashMap.{lookup, lookup-insert}
use parda.Result.{ok}
use parda.Protocol.Envelope.{u64_mod}
use parda.Protocol.SelfDestruct.{be_bytes}
use parda.Mesh.Error.{MeshError, MeshResult}
use parda.Mesh.Radio.Simulated.{ready}
use parda.Bridge.{
  OneshotResult, bytes, Slot, waiting, answered, Pending, next_request, register_oneshot,
  resolve_oneshot,
}
use parda.Bridge.Radio.{
  Call, request, await_slot, oneshot_to_mesh_result, from_be, handle_of, on_connect_result,
}

-- What may happen while a request waits: other requests, and callbacks with any id.
pub data Event : Type 0 where
  requested : MeshError → Call → Event
  resolved : ℕ → OneshotResult → Event

-- how many ids the events take
abbrev pub ids_taken : List Event → ℕ
ids_taken [] = 0
ids_taken (requested refusal call ∷ es) = suc (ids_taken es)
ids_taken (resolved id result ∷ es) = ids_taken es

-- the first callback with the id, if there is one
abbrev pub first_answer : ℕ → List Event → Slot
first_answer id [] = waiting
first_answer id (requested refusal call ∷ es) = first_answer id es
first_answer id (resolved j result ∷ es) =
    if nat_beq j id then answered result else first_answer id es

module _ (platform : ℕ → Call → Bool) where
  pub happen : List Event → Pending → Pending
  happen [] p = p
  happen (requested refusal call ∷ es) p = happen es (request platform refusal call p).1
  happen (resolved id result ∷ es) p = happen es (resolve_oneshot id result p)

  request-apart :
      (refusal : MeshError) (call : Call) (p : Pending) (id : ℕ)
      → id < p.next_id
      → lookup id (request platform refusal call p).1.oneshots ≡ lookup id p.oneshots
  unfolding request next_request register_oneshot
  request-apart refusal call p id below =
      ground (arith, lookup-insert p.next_id id waiting p.oneshots)

  request-next :
      (refusal : MeshError) (call : Call) (p : Pending)
      → suc p.next_id < u64_mod
      → (request platform refusal call p).1.next_id ≡ suc p.next_id
  unfolding request next_request register_oneshot
  request-next refusal call p small = omega arith

  -- a result reaches a slot that is waiting, and no other
  abbrev reached : OneshotResult → Option Slot → Option Slot
  reached result none = none
  reached result (some waiting) = some (answered result)
  reached result (some (answered first)) = some (answered first)

  resolve-lookup :
      (j id : ℕ) (result : OneshotResult) (p : Pending)
      → lookup id (resolve_oneshot j result p).oneshots
        ≡ (if nat_beq j id then reached result (lookup id p.oneshots) else lookup id p.oneshots)
  unfolding resolve_oneshot
  resolve-lookup j id result p = elim (Option-cases (lookup j p.oneshots)) [
    | inl absent ↦ ground (arith, absent)
    | inr (waiting, there) ↦ ground (arith, there, lookup-insert j id (answered result) p.oneshots)
    | inr (answered first, there) ↦ ground (arith, there)
  ]

  resolve-next :
      (j : ℕ) (result : OneshotResult) (p : Pending)
      → (resolve_oneshot j result p).next_id ≡ p.next_id
  unfolding resolve_oneshot
  resolve-next j result p = ground arith

  happen-answered :
      (es : List Event) (p : Pending) (id : ℕ) (first : OneshotResult)
      → id < p.next_id
      → p.next_id + ids_taken es < u64_mod
      → lookup id p.oneshots ≡ some (answered first)
      → lookup id (happen es p).oneshots ≡ some (answered first)
  unfolding happen
  happen-answered [] p id first below room found = found
  happen-answered (requested refusal call ∷ es) p id first below room found =
      let next = request-next refusal call p (omega arith) in
      happen-answered es (request platform refusal call p).1 id first (omega (arith, next))
        (omega (arith, next)) (request-apart refusal call p id below ∙ found)
  happen-answered (resolved j result ∷ es) p id first below room found =
      let next = resolve-next j result p in
      happen-answered es (resolve_oneshot j result p) id first (omega (arith, next))
        (omega (arith, next)) (ground (arith, resolve-lookup j id result p, found))

  happen-waiting :
      (es : List Event) (p : Pending) (id : ℕ)
      → id < p.next_id
      → p.next_id + ids_taken es < u64_mod
      → lookup id p.oneshots ≡ some waiting
      → lookup id (happen es p).oneshots ≡ some (first_answer id es)
  unfolding happen
  happen-waiting [] p id below room found = found
  happen-waiting (requested refusal call ∷ es) p id below room found =
      let next = request-next refusal call p (omega arith) in
      happen-waiting es (request platform refusal call p).1 id (omega (arith, next))
        (omega (arith, next)) (request-apart refusal call p id below ∙ found)
  happen-waiting (resolved j result ∷ es) p id below room found =
      let next = resolve-next j result p in
      let p' = resolve_oneshot j result p in
      let low : id < p'.next_id = omega (arith, next) in
      let few : p'.next_id + ids_taken es < u64_mod = omega (arith, next) in
      elim (Bool-cases (nat_beq j id)) [
        | inl same ↦ rw same (
            happen-answered es p' id result low few
              (ground (arith, resolve-lookup j id result p, found)))
        | inr other ↦
            rw other (
              happen-waiting es p' id low few (ground (arith, resolve-lookup j id result p, found)))
      ]

  -- Whatever requests and callbacks follow a request, as long as the ids last, its slot holds the
  -- result of the first callback with its own id, and waits where there was none.
  pub request-answered :
      (refusal : MeshError) (call : Call) (es : List Event) (p : Pending)
      → p.next_id + suc (ids_taken es) < u64_mod
      → let p' = happen es (request platform refusal call p).1 in
        lookup p.next_id p'.oneshots ≡ some (first_answer p.next_id es)
  unfolding request next_request register_oneshot
  request-answered refusal call es p room =
      let next = request-next refusal call p (omega arith) in
      happen-waiting es (request platform refusal call p).1 p.next_id (omega (arith, next))
        (omega (arith, next)) (ground (arith, lookup-insert p.next_id p.next_id waiting p.oneshots))

pub handle-round : (h : ℕ) → h < u64_mod → from_be 0 (be_bytes 8 h) ≡ h
unfolding from_be be_bytes
handle-round h small = omega arith

-- The handle of a link that the platform reports for a connecting is the handle that the connecting
-- returns, where it fits 64 bits.
pub connect-handle :
    (gone malformed : MeshError) (id h : ℕ) (p : Pending)
    → lookup id p.oneshots ≡ some waiting
    → h < u64_mod
    → (result : MeshResult Bytes) × (await_slot gone id (on_connect_result id h none p)
        ≡ ready result)
      × (handle_of malformed result ≡ ok h)
unfolding await_slot on_connect_result resolve_oneshot oneshot_to_mesh_result handle_of be_bytes
connect-handle gone malformed id h p found small = (
  ok (be_bytes 8 h),
  ground (arith, found, lookup-insert id id (answered (bytes (be_bytes 8 h))) p.oneshots),
  ap ok (handle-round h small),
)

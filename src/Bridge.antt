-- ===== src/Bridge.antt =====
-- mobile-bridge/src/pending.rs: the requests that wait for a callback of the platform, and the scans
-- that it feeds. A one-shot channel goes by the id of its registration, and an id that stands in the
-- source's registry is one whose slot is still waiting. A counter is the 64 bits of an `i64`.
pub mod Radio
pub mod Answers
pub mod Lifecycle
use parda.Base.{
  ℕ, ◌+◌, ◌%◌, Bool, true, false, Option, none, some, List, [], ◌∷◌, ◌++◌, String, Bytes, length,
  ltb, nat_key, if◌then◌else◌,
}
use parda.HashMap.{HashMap, lookup, insert, remove}
use parda.Protocol.Envelope.{u64_mod}

pub data OneshotResult : Type 0 where
  bytes : Bytes → OneshotResult
  empty : OneshotResult
  failed : String → OneshotResult

-- What the receiver of a one-shot channel finds.
pub data Slot : Type 0 where
  waiting : Slot
  answered : OneshotResult → Slot

pub record ScanResultBytes : Type 0 where
  pub peer_handle : Bytes
  pub token : Bytes

pub record Pending : Type 0 where
  pub next_id : ℕ
  pub oneshots : HashMap ℕ Slot
  pub streams : HashMap ℕ (List ScanResultBytes)

abbrev pub nothing_pending : Pending
nothing_pending = record { next_id = 1; oneshots = []; streams = [] }

-- the bound of a scan's channel
abbrev pub stream_capacity : ℕ
stream_capacity = 64

pub next_request : Pending → ℕ × Pending
next_request p = (p.next_id, record p { next_id = (p.next_id + 1) % u64_mod })

pub register_oneshot : ℕ → Pending → Pending
register_oneshot id p = record p { oneshots = insert id waiting p.oneshots }

-- Only the first result finds a sender.
pub resolve_oneshot : ℕ → OneshotResult → Pending → Pending
resolve_oneshot id result p = elim (lookup id p.oneshots) [
  | none ↦ p
  | some slot ↦ elim slot [
    | waiting ↦ record p { oneshots = insert id (answered result) p.oneshots }
    | answered first ↦ p
  ]
]

pub register_stream : ℕ → Pending → Pending
register_stream id p = record p { streams = insert id [] p.streams }

-- A full channel drops the sighting.
pub push_stream : ℕ → ScanResultBytes → Pending → Pending
push_stream id sighting p = elim (lookup id p.streams) [
  | none ↦ p
  | some queue ↦
      if ltb (length queue) stream_capacity
      then record p { streams = insert id (queue ++ sighting ∷ []) p.streams }
      else p
]

pub unregister_stream : ℕ → Pending → Pending
unregister_stream id p = record p { streams = remove id p.streams }

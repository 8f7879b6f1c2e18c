-- ===== src/Mesh/Radio/Simulated.antt =====
-- mesh/src/radio/simulated.rs: the simulated air. A channel is a queue with a flag for each end
-- that is still held; a link names the channels that it writes and reads. What a scan hands over is
-- the whole snapshot, and a wait that has nothing yet is `waiting`.
pub mod Reach
pub mod Links
use parda.Base.{
  ℕ, ◌+◌, ◌≡◌, ◌↔◌, refl, Bool, true, false, ◌&&◌, Option, none, some, List, [], ◌∷◌, ◌++◌, String,
  Bytes, arith, leb, not, nat_beq, nat_beq_iff, nat_key, if◌then◌else◌, KeyEq, ◌==◌, contains,
  keep_if,
}
use parda.Result.{Result, ok, err}
use parda.HashMap.{HashMap, lookup, insert}
use parda.Mesh.Error.{MeshError, MeshResult, radio_unavailable, peer_unreachable, link}
use parda.Mesh.Radio.{AdvertToken}

abbrev pub DeviceIndex : Type 0
DeviceIndex = ℕ

abbrev pub pair_beq : ℕ × ℕ → ℕ × ℕ → Bool
pair_beq (a, b) (c, d) = nat_beq a c && nat_beq b d

pub pair_beq_iff : (p q : ℕ × ℕ) → (pair_beq p q ≡ true) ↔ (p ≡ q)
pair_beq_iff (a, b) (c, d) = ground (arith, nat_beq_iff a c, nat_beq_iff b d)

instance abbrev pub pair_key : KeyEq (ℕ × ℕ)
pair_key = record { same_key = pair_beq; same_key_iff = pair_beq_iff }

pub data SimProfile : Type 0 where
  ble : SimProfile
  wifi_direct : SimProfile

abbrev pub approx_mtu : SimProfile → ℕ
approx_mtu ble = 512
approx_mtu wifi_direct = 65_536

pub record SimLink : Type 0 where
  pub tx : ℕ
  pub rx : ℕ

pub record Channel : Type 0 where
  pub queue : List Bytes
  pub sender_open : Bool
  pub receiver_open : Bool

-- `accept_queue` is the device's channel of incoming links.
pub record DeviceState : Type 0 where
  pub token : Option AdvertToken
  pub online : Bool
  pub accept_queue : List SimLink

pub record SimNetwork : Type 0 where
  pub devices : HashMap DeviceIndex DeviceState
  pub severed : List (DeviceIndex × DeviceIndex)
  pub next_index : ℕ
  pub channels : HashMap ℕ Channel
  pub next_channel : ℕ

pub record PeerSighting : Type 0 where
  pub handle : DeviceIndex
  pub token : AdvertToken

abbrev pub new : SimNetwork
new = record { devices = []; severed = []; next_index = 0; channels = []; next_channel = 0 }

unfoldable pub register : AdvertToken → SimNetwork → DeviceIndex × SimNetwork
register fresh net = (
  net.next_index,
  record net {
    next_index = net.next_index + 1;
    devices =
        insert net.next_index (record { token = some fresh; online = true; accept_queue = [] })
          net.devices;
  },
)

abbrev pub pair : DeviceIndex → DeviceIndex → DeviceIndex × DeviceIndex
pair a b = if leb a b then (a, b) else (b, a)

pub sever : DeviceIndex → DeviceIndex → SimNetwork → SimNetwork
sever a b net = record net {
  severed = if contains net.severed (pair a b) then net.severed else pair a b ∷ net.severed;
}

pub heal : DeviceIndex → DeviceIndex → SimNetwork → SimNetwork
heal a b net = record net { severed = keep_if (λ p. not (p == pair a b)) net.severed }

-- `get_mut`, and what is there is changed
abbrev pub with_device : DeviceIndex → (DeviceState → DeviceState) → SimNetwork → Option SimNetwork
with_device device change net = elim (lookup device net.devices) [
  | none ↦ none
  | some state ↦ some (record net { devices = insert device (change state) net.devices })
]

abbrev or_same : SimNetwork → Option SimNetwork → SimNetwork
or_same net none = net
or_same net (some net') = net'

pub set_online : DeviceIndex → Bool → SimNetwork → SimNetwork
set_online device online net =
    or_same net (with_device device (λ state. record state { online = online }) net)

abbrev pub is_online : DeviceIndex → SimNetwork → Bool
is_online device net = elim (lookup device net.devices) [ none ↦ false | some state ↦ state.online ]

unfoldable pub reachable : DeviceIndex → DeviceIndex → SimNetwork → Bool
reachable a b net =
    if nat_beq a b
    then false
    else if not (is_online a net && is_online b net)
    then false
    else not (contains net.severed (pair a b))

pub advertise : DeviceIndex → AdvertToken → SimNetwork → MeshResult SimNetwork
advertise device token net =
    elim (with_device device (λ state. record state { token = some token }) net) [
      | none ↦ err (radio_unavailable "device not registered")
      | some net' ↦ ok net'
    ]

abbrev pub visible : DeviceIndex → SimNetwork → DeviceIndex × DeviceState → Bool
visible device net (idx, state) =
    not (nat_beq idx device)
    && (is_online device net && (state.online && not (contains net.severed (pair device idx))))

-- `filter_map` over the devices that are visible
pub sightings : HashMap DeviceIndex DeviceState → List PeerSighting
sightings [] = []
sightings ((idx, state) ∷ devices) =
    let rest = sightings devices in
    elim state.token [ none ↦ rest | some token ↦ record { handle = idx; token = token } ∷ rest ]

pub scan : DeviceIndex → SimNetwork → List PeerSighting
unfolding sightings
scan device net = sightings (keep_if (visible device net) net.devices)

abbrev pub open_channel : Channel
open_channel = record { queue = []; sender_open = true; receiver_open = true }

-- The link of the caller, and the network with the other end in the target's queue.
pub connect : DeviceIndex → DeviceIndex → SimNetwork → MeshResult (SimLink × SimNetwork)
connect device target net =
    if not (reachable device target net)
    then err peer_unreachable
    else let mine = net.next_channel in
      let theirs = net.next_channel + 1 in
      let net' : SimNetwork = record net {
        channels = insert theirs open_channel (insert mine open_channel net.channels);
        next_channel = net.next_channel + 2;
      } in
      let their_link : SimLink = record { tx = theirs; rx = mine } in
      elim (with_device target
        (λ state. record state { accept_queue = state.accept_queue ++ their_link ∷ [] }) net') [
          | none ↦ err peer_unreachable
          | some after ↦ ok ((record { tx = mine; rx = theirs }), after)
        ]

pub data Wait (A : Type 0) : Type 0 where
  ready : A → Wait A
  waiting : Wait A
  closed : MeshError → Wait A

-- The network outlives the radio, so that a device's queue of links stays open.
pub accept : DeviceIndex → SimNetwork → Wait (SimLink × SimNetwork)
accept device net = elim (lookup device net.devices) [
  | none ↦ closed (radio_unavailable "radio closed")
  | some state ↦ elim state.accept_queue [
    | [] ↦ waiting
    | l ∷ links ↦ ready (
      l,
      record net { devices = insert device (record state { accept_queue = links }) net.devices },
    )
  ]
]

unfoldable pub send : SimLink → Bytes → SimNetwork → MeshResult SimNetwork
send l bytes net = elim (lookup l.tx net.channels) [
  | none ↦ err (link "peer link closed")
  | some ch ↦
      if ch.receiver_open
      then ok (record net {
        channels = insert l.tx (record ch { queue = ch.queue ++ bytes ∷ [] }) net.channels;
      })
      else err (link "peer link closed")
]

pub recv : SimLink → SimNetwork → Wait (Bytes × SimNetwork)
recv l net = elim (lookup l.rx net.channels) [
  | none ↦ closed (link "peer link closed")
  | some ch ↦ elim ch.queue [
    | [] ↦ if ch.sender_open then waiting else closed (link "peer link closed")
    | bytes ∷ queue ↦
        ready
          (bytes, record net { channels = insert l.rx (record ch { queue = queue }) net.channels })
  ]
]

abbrev with_channel : ℕ → (Channel → Channel) → HashMap ℕ Channel → HashMap ℕ Channel
with_channel c change channels = elim (lookup c channels) [
  | none ↦ channels
  | some ch ↦ insert c (change ch) channels
]

-- A link that is dropped lets go of its two ends.
pub close : SimLink → SimNetwork → SimNetwork
close l net = record net {
  channels =
      with_channel l.rx (λ ch. record ch { receiver_open = false })
        (with_channel l.tx (λ ch. record ch { sender_open = false }) net.channels);
}

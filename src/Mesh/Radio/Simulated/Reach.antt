-- ===== src/Mesh/Radio/Simulated/Reach.antt =====
-- Who reaches whom on the simulated air: partitions, and what a scan shows.
use parda.Base.{
  ℕ, ◌≡◌, refl, ap, ◌∙◌, Bool, true, false, ◌&&◌, ◌||◌, Option, none, some, List, [], ◌∷◌, map,
  arith, not, nat_beq, nat_key, if◌then◌else◌, ◌==◌, contains, keep_if, Option-cases, inl, inr,
}
use parda.HashMap.{HashMap, lookup, Distinct, lookup-keep_if, lookup_absent, keep_if-Distinct}
use parda.Mesh.Radio.Simulated.{
  DeviceIndex, DeviceState, SimNetwork, PeerSighting, pair_key, pair_beq_iff, pair, sever, heal,
  is_online, reachable, sightings, visible, scan,
}

contains-others :
    (p q : ℕ × ℕ) (pairs : List (ℕ × ℕ))
    → contains (keep_if (λ r. not (r == p)) pairs) q ≡ (not (p == q) && contains pairs q)
contains-others p q [] = ground (arith)
contains-others p q (r ∷ pairs) =
    ground (arith, contains-others p q pairs, pair_beq_iff r p, pair_beq_iff r q, pair_beq_iff p q)

contains-severed :
    (p q : ℕ × ℕ) (pairs : List (ℕ × ℕ))
    → contains (if contains pairs p then pairs else p ∷ pairs) q ≡ (p == q || contains pairs q)
contains-severed p q pairs = ground (arith, pair_beq_iff p q)

pair_comm : (a b : DeviceIndex) → pair a b ≡ pair b a
pair_comm a b = ground arith

-- Both ends see a connection alike; severing a pair cuts that pair and no other, healing it leaves
-- the pair to who is online and changes no other.
pub reachable_lem :
    (a b x y : DeviceIndex) (net : SimNetwork)
    → (reachable x y net ≡ reachable y x net)
      × (reachable x y (sever a b net) ≡ (not (pair a b == pair x y) && reachable x y net))
      × (reachable x y (heal a b net) ≡ (
          if pair a b == pair x y
          then not (nat_beq x y) && (is_online x net && is_online y net)
          else reachable x y net))
unfolding reachable sever heal
reachable_lem a b x y net = (
  ground (arith, pair_comm x y),
  ground (arith, contains-severed (pair a b) (pair x y) net.severed),
  ground (arith, contains-others (pair a b) (pair x y) net.severed),
)

abbrev pub has_token : Option DeviceState → Bool
has_token none = false
has_token (some state) = elim state.token [ none ↦ false | some token ↦ true ]

abbrev pub handles : List PeerSighting → List DeviceIndex
handles = map (λ s. s.handle)

handles-sightings :
    (b : DeviceIndex) (devices : HashMap DeviceIndex DeviceState)
    → Distinct devices
    → contains (handles (sightings devices)) b ≡ has_token (lookup b devices)
unfolding sightings
handles-sightings b [] d = refl
handles-sightings b ((idx, state) ∷ devices) d = elim (Option-cases state.token) [
  | inl e ↦ rw (e) (ground (arith, handles-sightings b devices d.1, lookup_absent b devices))
  | inr (token, e) ↦ rw (e) (ground (arith, handles-sightings b devices d.1))
]

-- Where every device is registered once, a scan shows exactly the devices that the scanning one
-- reaches and that advertise.
pub scan-reachable :
    (a b : DeviceIndex) (net : SimNetwork)
    → Distinct net.devices
    → contains (handles (scan a net)) b ≡ (reachable a b net && has_token (lookup b net.devices))
unfolding scan reachable
scan-reachable a b net d =
    let shown =
      handles-sightings b (keep_if (visible a net) net.devices)
        (keep_if-Distinct (visible a net) net.devices d) in
    let kept = lookup-keep_if (visible a net) b net.devices d in
    elim (Option-cases (lookup b net.devices)) [
      | inl e ↦ shown ∙ ap has_token kept ∙ rw (e) (ground arith)
      | inr (state, e) ↦ shown ∙ ap has_token kept ∙ rw (e) (ground (arith, e))
    ]

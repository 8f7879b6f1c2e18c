-- ===== src/Tests/Radio.antt =====
-- The simulated air with two devices.
use parda.Base.{◌≡◌, refl, true, some, [], ◌∷◌, Bytes, nat_key}
use parda.HashMap.{insert}
use parda.Mesh.Radio.{current_token, with_default_interval}
use parda.Mesh.Radio.Simulated.{DeviceState, SimNetwork, register, new, reachable}

abbrev device : Bytes → DeviceState
device token = record { token = some token; online = true; accept_queue = [] }

abbrev air : SimNetwork
air = record new { devices = (0, device (1 ∷ [])) ∷ (1, device (2 ∷ [])) ∷ []; next_index = 2 }

two_registered : (register (2 ∷ []) (register (1 ∷ []) new).1).1 ≡ air
unfolding register insert
two_registered = refl

reached : reachable 0 1 air ≡ true
unfolding reachable
reached = refl

token_kept : (current_token (9 ∷ []) 100 (with_default_interval (8 ∷ []) 0)).0 ≡ 8 ∷ []
unfolding current_token
token_kept = refl

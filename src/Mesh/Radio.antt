-- ===== src/Mesh/Radio.antt =====
-- mesh/src/radio/mod.rs: advertisement tokens and their rotation. Fresh random bytes and the clock
-- are arguments.
pub mod Simulated
use parda.Base.{ℕ, ◌-◌, Bool, List, [], ◌∷◌, ◌++◌, Bytes, leb, if◌then◌else◌}

abbrev pub advert_token_len : ℕ
advert_token_len = 16

-- "P4"
abbrev pub protocol_tag : Bytes
protocol_tag = 80 ∷ 52 ∷ []

-- two minutes, in nanoseconds
abbrev pub default_rotation_interval : ℕ
default_rotation_interval = 120_000_000_000

-- Sixteen bytes.
abbrev pub AdvertToken : Type 0
AdvertToken = Bytes

abbrev pub to_wire : AdvertToken → Bytes
to_wire token = protocol_tag ++ token

pub record RotatingIdentity : Type 0 where
  pub interval : ℕ
  pub current : AdvertToken
  pub since : ℕ

abbrev pub new : ℕ → AdvertToken → ℕ → RotatingIdentity
new interval fresh now = record { interval = interval; current = fresh; since = now }

abbrev pub with_default_interval : AdvertToken → ℕ → RotatingIdentity
with_default_interval fresh now = new default_rotation_interval fresh now

unfoldable pub current_token : AdvertToken → ℕ → RotatingIdentity → AdvertToken × RotatingIdentity
current_token fresh now i =
    if leb i.interval (now - i.since)
    then (fresh, record i { current = fresh; since = now })
    else (i.current, i)

pub rotate : AdvertToken → ℕ → RotatingIdentity → AdvertToken × RotatingIdentity
rotate fresh now i = (fresh, record i { current = fresh; since = now })

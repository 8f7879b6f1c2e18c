-- ===== src/Protocol/SelfDestruct.antt =====
-- protocol/src/self_destruct.rs: messages sealed under a key that a timer or the first reading
-- erases. HKDF and the AEAD are parameters; the random seed and nonce, the wall clock and the
-- monotonic clock are arguments. The mutex makes each method one step on the key slot.
pub mod Kdf
pub mod Run
pub mod Restore
pub mod Persist
use Prim.Native.Char.{code}
use Prim.Native.String
use parda.Base.{
  ℕ, zero, suc, ◌+◌, ◌-◌, ◌*◌, ◌/◌, ◌%◌, ◌^◌, ◌≡◌, min, Bool, true, false, Option, none, some, List,
  [], ◌∷◌, ◌++◌, Bytes, String, ltb, leb, if◌then◌else◌, length, take, drop, replicate,
}
use parda.Result.{Result, ok, err, ok_or, ◌>>=◌, ◌>>◌}
use parda.Protocol.Error.{
  PardaError, ProtoResult, self_destruct_expired, self_destruct_crypto, clock_rollback_detected,
}
use parda.Protocol.ClockGuard.{
  WatermarkStore, ClockCheck, in_order, rollback_detected, check_clock_integrity,
}
use parda.Protocol.Envelope.{u64_mod}

abbrev pub default_expiry_window_ms : ℕ
default_expiry_window_ms = 5 * 60 * 1000

abbrev pub key_len : ℕ
key_len = 32

abbrev pub nonce_len : ℕ
nonce_len = 12

-- `hkdf` and `chacha20poly1305`; `none` is an error of the AEAD.
pub record Crypto : Type 0 where
  pub hkdf_expand : (ikm info : Bytes) → Bytes
  pub encrypt : (key nonce plaintext : Bytes) → Option Bytes
  pub decrypt : (key nonce ciphertext : Bytes) → Option Bytes

pub data DestructMode : Type 0 where
  time_bound read_triggered combined : DestructMode

unfoldable pub tag : DestructMode → ℕ
tag time_bound = 0
tag read_triggered = 1
tag combined = 2

unfoldable pub erases_on_read : DestructMode → Bool
erases_on_read time_bound = false
erases_on_read read_triggered = true
erases_on_read combined = true

-- `u64::to_be_bytes` for a width of `k` bytes.
unfoldable pub be_bytes : ℕ → ℕ → Bytes
be_bytes zero n = []
be_bytes (suc k) n = (n / 256 ^ k % 256) ∷ be_bytes k n

text_bytes : String → Bytes
text_bytes String.[] = []
text_bytes (String.◌∷◌ c s) = code c ∷ text_bytes s

pub kdf_context : Bytes
unfolding text_bytes
kdf_context = text_bytes "PARDA-Phase3-SelfDestructKey-V1"

-- what binds the key to the message
pub kdf_info : DestructMode → ℕ → ℕ → Bytes
unfolding tag be_bytes kdf_context
kdf_info mode timestamp_ms expiry_window_ms =
    kdf_context ++ (tag mode ∷ (be_bytes 8 timestamp_ms ++ be_bytes 8 expiry_window_ms))

-- `Mutex<Option<DerivedKey>>` with its heap: the key that is held, the contents of key buffers
-- that were given back to the allocator, and the number of buffers locked against swap.
pub record KeySlot : Type 0 where
  pub held : Option Bytes
  pub freed : List Bytes
  pub locked : ℕ

abbrev pub zeroized : Bytes → Bytes
zeroized key = replicate (length key) 0

-- `DerivedKey::new`, in a slot of its own; `lock` may fail, which is ignored.
unfoldable pub new_key : Bool → Bytes → KeySlot
new_key lock bytes = record { held = some bytes; freed = []; locked = if lock then 1 else 0 }

-- zeroize while it is held, then clear the slot: the drop zeroizes again, unlocks and frees
pub erase : KeySlot → KeySlot
erase slot = elim slot.held [
  | none ↦ slot
  | some key ↦ record {
    held = none;
    freed = zeroized (zeroized key) ∷ slot.freed;
    locked = slot.locked - 1;
  }
]

-- `timer` is the monotonic deadline of the spawned expiry task.
pub record SelfDestructingMessage : Type 0 where
  pub ciphertext : Bytes
  pub key : KeySlot
  pub mode : DestructMode
  pub expires_at_ms : Option ℕ
  pub timer : Option ℕ

pub record PersistedSelfDestructState : Type 0 where
  pub ciphertext : Bytes
  pub key_bytes : Bytes
  pub mode : DestructMode
  pub expires_at_ms : Option ℕ

-- `u64::saturating_add`
abbrev pub saturating_add : ℕ → ℕ → ℕ
saturating_add a b = min (a + b) (u64_mod - 1)

abbrev pub persisted_deadline : DestructMode → ℕ → ℕ → Option ℕ
persisted_deadline read_triggered wall_ms window_ms = none
persisted_deadline time_bound wall_ms window_ms = some (saturating_add wall_ms window_ms)
persisted_deadline combined wall_ms window_ms = some (saturating_add wall_ms window_ms)

-- What a call reads from outside: randomness, the two clocks, and whether the system locks the key's
-- pages when it is asked to.
pub record Env : Type 0 where
  pub lock : Bool
  pub seed : Bytes
  pub nonce : Bytes
  pub wall_ms : ℕ
  pub monotonic_ms : ℕ

unfoldable pub spawn_expiry_timer : ℕ → ℕ → SelfDestructingMessage → SelfDestructingMessage
spawn_expiry_timer monotonic_ms window_ms m = record m { timer = some (monotonic_ms + window_ms) }

module _ (x : Crypto) where
  pub derive_key : Bytes → DestructMode → ℕ → ℕ → Bytes
  derive_key seed mode timestamp_ms expiry_window_ms =
      x.hkdf_expand seed (kdf_info mode timestamp_ms expiry_window_ms)

  unfoldable pub seal_inner :
      Env → Bytes → DestructMode → ℕ → ℕ → ProtoResult SelfDestructingMessage
  unfolding derive_key new_key
  seal_inner env plaintext mode timestamp_ms expiry_window_ms = do
    let key = derive_key env.seed mode timestamp_ms expiry_window_ms
    ct ← ok_or (x.encrypt key env.nonce plaintext) (self_destruct_crypto "encrypt")
    ok (record {
      ciphertext = env.nonce ++ ct;
      key = new_key env.lock key;
      mode = mode;
      expires_at_ms = persisted_deadline mode env.wall_ms expiry_window_ms;
      timer = none;
    })

  -- `expiry_window` is a `Duration` in milliseconds.
  unfoldable pub seal : Env → Bytes → ℕ → ℕ → ProtoResult SelfDestructingMessage
  unfolding seal_inner spawn_expiry_timer
  seal env plaintext timestamp_ms expiry_window = do
    m ← seal_inner env plaintext time_bound timestamp_ms (expiry_window % u64_mod)
    ok (spawn_expiry_timer env.monotonic_ms expiry_window m)

  pub seal_read_triggered : Env → Bytes → ℕ → ProtoResult SelfDestructingMessage
  unfolding seal_inner
  seal_read_triggered env plaintext timestamp_ms =
      seal_inner env plaintext read_triggered timestamp_ms 0

  unfoldable pub seal_combined : Env → Bytes → ℕ → ℕ → ProtoResult SelfDestructingMessage
  unfolding seal_inner spawn_expiry_timer
  seal_combined env plaintext timestamp_ms expiry_window = do
    m ← seal_inner env plaintext combined timestamp_ms (expiry_window % u64_mod)
    ok (spawn_expiry_timer env.monotonic_ms expiry_window m)

  -- the decryption, under the lock
  pub decrypt_held : SelfDestructingMessage → ProtoResult Bytes
  decrypt_held m = do
    key ← ok_or m.key.held self_destruct_expired
    if ltb (length m.ciphertext) nonce_len
        then err (self_destruct_crypto "stored ciphertext shorter than the nonce prefix")
        else ok_or (x.decrypt key (take nonce_len m.ciphertext) (drop nonce_len m.ciphertext))
            (self_destruct_crypto "decrypt")

  pub open_message : SelfDestructingMessage → ProtoResult Bytes × SelfDestructingMessage
  unfolding decrypt_held erases_on_read erase
  open_message m = elim (decrypt_held m) [
    | err e ↦ (err e, m)
    | ok plaintext ↦
        (ok plaintext, if erases_on_read m.mode then record m { key = erase m.key } else m)
  ]

pub expire_now : SelfDestructingMessage → SelfDestructingMessage
unfolding erase
expire_now m = record m { key = erase m.key }

abbrev pub is_expired : SelfDestructingMessage → Bool
is_expired m = elim m.key.held [ none ↦ true | some key ↦ false ]

module _ (x : Crypto) where
  pub open_with_clock_guard :
      WatermarkStore
      → ℕ
      → SelfDestructingMessage
      → ProtoResult Bytes × SelfDestructingMessage × WatermarkStore
  unfolding expire_now open_message check_clock_integrity
  open_with_clock_guard store now_ms m =
      let (check, store') = check_clock_integrity store now_ms in
      elim check [
        | rollback_detected watermark_ms observed_ms ↦
            (err (clock_rollback_detected observed_ms watermark_ms), expire_now m, store')
        | in_order ↦ let (r, m') = open_message x m in (r, m', store')
      ]

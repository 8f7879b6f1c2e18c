-- ===== src/Plaintext.antt =====
-- protocol/src/plaintext_ffi.rs, the handle on a decrypted message, and the registry through which
-- the mobile application reaches it: mobile-bridge/src/plaintext_exports.rs, with the ids of
-- pending.rs. A buffer that is freed is kept with its last contents; page locking is left out, and
-- an id is the bit pattern of an `i64`.
use parda.Base.{
  ℕ, zero, suc, ap, ◌+◌, ◌%◌, ◌≡◌, refl, ◌∙◌, ◌≢◌, Bool, true, false, Option, none, some, List, [],
  ◌∷◌, ◌++◌, Bytes, arith, nat_key, length, drop, replicate, leb, if◌then◌else◌, nat_beq,
  nat_beq_iff, beq_refl, length-replicate,
}
use parda.HashMap.{HashMap, lookup, insert, remove, lookup-insert, lookup-remove}
use parda.Protocol.Envelope.{u64_mod}

pub record PlaintextHandle : Type 0 where
  pub bytes : Option Bytes

abbrev pub new : Bytes → PlaintextHandle
new bytes = record { bytes = some bytes }

abbrev pub len_of : Option Bytes → ℕ
len_of none = 0
len_of (some bytes) = length bytes

abbrev pub len : PlaintextHandle → ℕ
len h = len_of h.bytes

abbrev pub is_empty : PlaintextHandle → Bool
is_empty h = nat_beq (len h) 0

-- The caller's buffer afterwards, and whether the bytes were copied to its front.
pub copy_into : PlaintextHandle → Bytes → Bool × Bytes
copy_into h out = elim h.bytes [
  | none ↦ (false, out)
  | some bytes ↦
      if leb (length bytes) (length out)
      then (true, bytes ++ drop (length bytes) out)
      else (false, out)
]

-- The zeroized contents of the buffer that is freed, if there was one.
pub release : PlaintextHandle → Option Bytes × PlaintextHandle
release h = (
  elim h.bytes [ none ↦ none | some bytes ↦ some (replicate (length bytes) 0) ],
  record { bytes = none },
)

pub record Registry : Type 0 where
  pub next_id : ℕ
  pub handles : HashMap ℕ PlaintextHandle
  pub freed : List Bytes

abbrev pub empty_registry : Registry
empty_registry = record { next_id = 1; handles = []; freed = [] }

abbrev pub take_id : Registry → ℕ × Registry
take_id r = (r.next_id, record r { next_id = (r.next_id + 1) % u64_mod })

abbrev with_freed : Option Bytes → List Bytes → List Bytes
with_freed none freed = freed
with_freed (some contents) freed = contents ∷ freed

-- `HashMap::insert` drops the handle that had the id.
abbrev dropped : Option PlaintextHandle → List Bytes → List Bytes
dropped none freed = freed
dropped (some h) freed = with_freed (release h).0 freed

-- The argument is the Java array, if it can be read.
pub plaintext_new : Option Bytes → Registry → ℕ × Registry
plaintext_new none r = (0, r)
plaintext_new (some bytes) r =
    let (id, r') = take_id r in
    (
      id,
      record r' {
        freed = dropped (lookup id r.handles) r.freed;
        handles = insert id (new bytes) r.handles;
      },
    )

pub plaintext_len : ℕ → Registry → ℕ
plaintext_len handle r = elim (lookup handle r.handles) [ none ↦ 0 | some h ↦ len h ]

pub plaintext_copy_into : ℕ → Registry → Option Bytes
unfolding copy_into
plaintext_copy_into handle r = elim (lookup handle r.handles) [
  | none ↦ none
  | some h ↦
      let (copied, buf) = copy_into h (replicate (len h) 0) in if copied then some buf else none
]

pub plaintext_release : ℕ → Registry → Registry
unfolding release
plaintext_release handle r = record r {
  handles = remove handle r.handles;
  freed = dropped (lookup handle r.handles) r.freed;
}

drop-replicate : (n a : ℕ) → drop n (replicate n a) ≡ []
drop-replicate zero a = refl
drop-replicate (suc n) a = drop-replicate n a

append_nil : (xs : Bytes) → xs ++ [] ≡ xs
append_nil [] = refl
append_nil (x ∷ xs) = ap (◌∷◌ x) (append_nil xs)

copy_into-whole :
    (bytes : Bytes) → copy_into (new bytes) (replicate (length bytes) 0) ≡ (true, bytes)
unfolding copy_into
copy_into-whole bytes =
    let whole : leb (length bytes) (length bytes) ≡ true = ground arith in
    rw
      (
        copy_into,
        length-replicate (length bytes) (let z : ℕ = 0 in z),
        whole,
        drop-replicate (length bytes) (let z : ℕ = 0 in z),
        append_nil bytes,
      )
      refl

remove-absent : (id : ℕ) (m : HashMap ℕ PlaintextHandle) → lookup id m ≡ none → remove id m ≡ m
unfolding remove
remove-absent id [] h = refl
remove-absent id ((j, v) ∷ m) h = ground (arith, remove-absent id m)

-- Releasing an id that no handle has changes nothing.
release-unknown : (id : ℕ) (r : Registry) → lookup id r.handles ≡ none → plaintext_release id r ≡ r
unfolding plaintext_release
release-unknown id r absent =
    rw (plaintext_release, absent)
      (ap (λ handles. record r { handles = handles }) (remove-absent id r.handles absent))

-- Under an id that no handle has: a new handle gives its bytes and their number; releasing it
-- frees a buffer that holds zeros only, after which the id gives nothing and a second release
-- changes nothing; every other id gives what it gave before.
pub plaintext_release_lem :
    (bytes : Bytes) (other : ℕ) (r : Registry)
    → lookup r.next_id r.handles ≡ none
    → let (id, r₁) = plaintext_new (some bytes) r in
      let r₂ = plaintext_release id r₁ in
      (plaintext_copy_into id r₁ ≡ some bytes)
      × (plaintext_len id r₁ ≡ length bytes)
      × (r₂.freed ≡ replicate (length bytes) 0 ∷ r.freed)
      × (plaintext_copy_into id r₂ ≡ none)
      × (plaintext_len id r₂ ≡ 0)
      × (plaintext_release id r₂ ≡ r₂)
      × (id ≢ other
          → (plaintext_copy_into other r₁ ≡ plaintext_copy_into other r)
            × (plaintext_copy_into other r₂ ≡ plaintext_copy_into other r)
            × (plaintext_len other r₁ ≡ plaintext_len other r)
            × (plaintext_len other r₂ ≡ plaintext_len other r))
unfolding plaintext_new plaintext_len plaintext_copy_into plaintext_release release
plaintext_release_lem bytes other r fresh =
    let id = r.next_id in
    let handles = insert id (new bytes) r.handles in
    let stored : lookup id handles ≡ some (new bytes) =
      lookup-insert id id (new bytes) r.handles ∙ rw (beq_refl id) refl in
    let gone : lookup id (remove id handles) ≡ none =
      lookup-remove id id handles ∙ rw (beq_refl id) refl in
    let differs : id ≢ other → nat_beq id other ≡ false =
      λ ne. ground (arith, nat_beq_iff id other) in
    (
      rw (plaintext_copy_into, stored, copy_into-whole bytes) refl,
      rw (plaintext_len, stored) refl,
      rw (fresh, stored) refl,
      rw (plaintext_copy_into, plaintext_release, gone) refl,
      rw (plaintext_len, plaintext_release, gone) refl,
      release-unknown id (plaintext_release id (plaintext_new (some bytes) r).1) gone,
      λ ne. (
        rw (plaintext_copy_into, lookup-insert id other (new bytes) r.handles, differs ne) refl,
        rw
            (
              plaintext_copy_into,
              plaintext_release,
              lookup-remove id other handles,
              lookup-insert id other (new bytes) r.handles,
              differs ne,
            )
            refl,
        rw (plaintext_len, lookup-insert id other (new bytes) r.handles, differs ne) refl,
        rw
            (
              plaintext_len,
              plaintext_release,
              lookup-remove id other handles,
              lookup-insert id other (new bytes) r.handles,
              differs ne,
            )
            refl,
      ),
    )

-- ===== src/ClientStore/Holding.antt =====
-- The holding area: a staged message is taken once, as it was staged, and expired rows go.
use parda.Base.{
  ℕ, ◌<◌, ◌^◌, ◌≡◌, refl, ◌≢◌, true, false, none, some, arith, String, length, not, leb, string_key,
  eq_iff, Option-cases, inl, inr,
}
use parda.HashMap.{
  lookup, contains_key, insert, Distinct, passing, lookup-insert, lookup-remove, lookup-keep_if,
}
use parda.Result.{ok, err}
use parda.Protocol.SelfDestruct.{
  DestructMode, time_bound, read_triggered, combined, PersistedSelfDestructState,
}
use parda.ClientStore.{
  LocalMessageStore, PendingRow, duplicate_key, mode_to_str, mode_from_str, read_pending,
  stage_self_destructing, take_self_destructing, purge_expired_self_destructing, has_expired,
}

mode_from_str-mode_to_str : (mode : DestructMode) → mode_from_str (mode_to_str mode) ≡ some mode
unfolding mode_from_str mode_to_str
mode_from_str-mode_to_str time_bound = refl
mode_from_str-mode_to_str read_triggered = refl
mode_from_str-mode_to_str combined = refl

-- The row that `stage_self_destructing` writes.
abbrev pub row_of : String → PersistedSelfDestructState → ℕ → PendingRow
row_of peer_address state staged_at_ms = record {
  peer_address = peer_address;
  ciphertext = state.ciphertext;
  key_bytes = state.key_bytes;
  mode = mode_to_str state.mode;
  expires_at_ms = state.expires_at_ms;
  staged_at_ms = staged_at_ms;
}

read_pending-row_of :
    (peer : String) (state : PersistedSelfDestructState) (staged_at_ms : ℕ)
    → length state.key_bytes ≡ 32
    → read_pending (row_of peer state staged_at_ms) ≡ ok state
unfolding read_pending
read_pending-row_of peer state staged_at_ms h = ground (arith, mode_from_str-mode_to_str state.mode)

-- Under a fresh row id, a staged message with a 32-byte key is taken back exactly as it was
-- staged, key, mode and deadline included; a second taking finds nothing, and no other row is
-- touched. Under an id in use staging fails and changes nothing.
pub take_self_destructing-stage :
    (id other peer : String) (state : PersistedSelfDestructState) (staged_at_ms : ℕ)
    (s : LocalMessageStore)
    → length state.key_bytes ≡ 32
    → let (outcome, staged) = stage_self_destructing id peer state staged_at_ms s in
      let (taken, s') = take_self_destructing id staged in
      (contains_key id s.pending_self_destruct ≡ true
        → (outcome ≡ err duplicate_key) × (staged ≡ s))
      × (contains_key id s.pending_self_destruct ≡ false
          → (outcome ≡ ok id)
            × (taken ≡ ok (some state))
            × ((take_self_destructing id s').0 ≡ ok none)
            × (id ≢ other
                → lookup other s'.pending_self_destruct ≡ lookup other s.pending_self_destruct))
unfolding stage_self_destructing take_self_destructing
take_self_destructing-stage id other peer state staged_at_ms s h =
    let row = row_of peer state staged_at_ms in
    let rows = insert id row s.pending_self_destruct in
    (
      λ used. ground arith,
      λ fresh. ground (
        arith,
        eq_iff id id,
        eq_iff id other,
        lookup-insert id id row s.pending_self_destruct,
        lookup-insert id other row s.pending_self_destruct,
        lookup-remove id id rows,
        lookup-remove id other rows,
        read_pending-row_of peer state staged_at_ms h,
      ),
    )

-- Taking a row deletes it whatever its contents: afterwards the id is unknown, and a row whose
-- mode or key is corrupt is reported as an error and is gone too.
pub take_self_destructing_gone :
    (id other : String) (s : LocalMessageStore)
    → let s' = (take_self_destructing id s).1 in
      (lookup id s'.pending_self_destruct ≡ none)
      × ((take_self_destructing id s').0 ≡ ok none)
      × (id ≢ other → lookup other s'.pending_self_destruct ≡ lookup other s.pending_self_destruct)
      × (s'.messages ≡ s.messages)
unfolding take_self_destructing
take_self_destructing_gone id other s = elim (Option-cases (lookup id s.pending_self_destruct)) [
  | inl absent ↦ ground arith
  | inr (row, found) ↦ ground (
    arith,
    eq_iff id id,
    eq_iff id other,
    lookup-remove id id s.pending_self_destruct,
    lookup-remove id other s.pending_self_destruct,
  )
]

-- Where no row id stands twice and the clock is below 2 ^ 63, the holding area has after a purge
-- of each id the row that it had before, unless that row's deadline had passed; a deadline below
-- 2 ^ 63 has passed exactly when it is at most the clock, and a row without a deadline never
-- goes.
pub lookup-purge_expired :
    (now_ms : ℕ) (id : String) (s : LocalMessageStore)
    → Distinct s.pending_self_destruct
    → now_ms < 2 ^ 63
    → let s' = (purge_expired_self_destructing now_ms s).1 in
      (lookup id s'.pending_self_destruct
        ≡ passing (λ r. not (has_expired now_ms r)) id (lookup id s.pending_self_destruct))
      × ((row : PendingRow) (ms : ℕ)
          → row.expires_at_ms ≡ some ms
          → ms < 2 ^ 63
          → has_expired now_ms (id, row) ≡ leb ms now_ms)
      × ((row : PendingRow) → row.expires_at_ms ≡ none → has_expired now_ms (id, row) ≡ false)
unfolding purge_expired_self_destructing
lookup-purge_expired now_ms id s distinct h = (
  lookup-keep_if (λ r. not (has_expired now_ms r)) id s.pending_self_destruct distinct,
  λ row ms deadline k. ground arith,
  λ row forever. ground arith,
)

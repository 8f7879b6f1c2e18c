-- ===== src/HashMap/Within.antt =====
-- Entries that all stand in a map: what a scan has collected before a loop removes it.
use parda.Base.{
  ◌≡◌, refl, Bool, false, Option, none, some, [], ◌∷◌, map, arith, KeyEq, keep_if, contains,
}
use parda.HashMap.{HashMap, lookup, contains_key, remove, Distinct, lookup-remove, lookup_absent}

module _ {ℓ κ} {K : Type ℓ} {V : Type κ} ⦃e : KeyEq K⦄ where
  abbrev pub Within : HashMap K V → HashMap K V → Type κ
  Within m [] = Unit
  Within m ((k, v) ∷ entries) = (lookup k m ≡ some v) × Within m entries

  Within-cons :
      (k : K) (v : V) (m entries : HashMap K V)
      → contains_key k entries ≡ false
      → Within m entries
      → Within ((k, v) ∷ m) entries
  Within-cons k v m [] h w = tt
  Within-cons k v m ((j, u) ∷ entries) h w =
      ground (arith, e.same_key_iff k j, e.same_key_iff j k, Within-cons k v m entries)

  pub Within-remove :
      (k : K) (m entries : HashMap K V)
      → contains_key k entries ≡ false
      → Within m entries
      → Within (remove k m) entries
  Within-remove k m [] h w = tt
  Within-remove k m ((j, u) ∷ entries) h w = ground (
    arith,
    e.same_key_iff k j,
    e.same_key_iff j k,
    lookup-remove k j m,
    Within-remove k m entries,
  )

  pub Within-self : (m : HashMap K V) → Distinct m → Within m m
  Within-self [] d = tt
  Within-self ((k, v) ∷ m) d =
      ground (arith, e.same_key_iff k k, Within-cons k v m m d.0 (Within-self m d.1))

  pub Within-keep_if :
      (test : K × V → Bool) (m entries : HashMap K V)
      → Within m entries
      → Within m (keep_if test entries)
  Within-keep_if test m [] w = tt
  Within-keep_if test m ((k, v) ∷ entries) w = ground (arith, Within-keep_if test m entries)

  -- The test on the entry of a key, if it has one.
  abbrev pub passes : (K × V → Bool) → K → Option V → Bool
  passes test k none = false
  passes test k (some v) = test (k, v)

  -- A key is among the collected keys exactly when its entry passes the test.
  pub contains-keep_if :
      (test : K × V → Bool) (k : K) (m : HashMap K V)
      → Distinct m
      → contains (map (λ x. x.0) (keep_if test m)) k ≡ passes test k (lookup k m)
  contains-keep_if test k [] d = refl
  contains-keep_if test k ((j, v) ∷ m) d =
      ground
        (arith, e.same_key_iff j k, contains-keep_if test k m, lookup_absent j m, lookup_absent k m)

-- ===== src/Cache.antt =====
-- `DecisionCache` of pmiri/cache.py, for a value of any type.
use ragsistemi.Prelude.{
  String, ◌≡◌, refl, not, ◌||◌, [], ◌∷◌, Option, none, some, if◌then◌else◌, ◌==◌, string_eq, arith,
  Option-cases, inl, inr,
}
use ragsistemi.Prelude.Int.{ℤ, int_eq}
use ragsistemi.Prelude.Dict.{Dict, lookup, insert, lookup-insert, NodupKeys}

module _ (V : Type 0) where
  pub record CachedDecision : Type 0 where
    pub key : String
    pub value : V
    pub invalidation_epoch : ℤ
    pub freshness_profile_id : String
    pub freshness_profile_fingerprint : String

  -- `self._items`
  abbrev pub Cache : Type 0
  Cache = Dict CachedDecision

  unfoldable pub put : CachedDecision → Cache → Cache
  put d items = insert d.key d items

  usable : Option CachedDecision → ℤ → String → String → Option V
  usable none epoch id fingerprint = none
  usable (some d) epoch id fingerprint =
      if not (d.invalidation_epoch == epoch)
      then none
      else if not (d.freshness_profile_id == id)
          || not (d.freshness_profile_fingerprint == fingerprint)
      then none
      else some d.value

  unfoldable pub get :
      String → (invalidation_epoch : ℤ) → (id fingerprint : String) → Cache → Option V
  unfolding usable
  get key epoch id fingerprint items = usable (lookup key items) epoch id fingerprint

  unfoldable pub invalidate_epoch : ℤ → Cache → Cache
  invalidate_epoch epoch [] = []
  invalidate_epoch epoch ((k, d) ∷ items) =
      let rest = invalidate_epoch epoch items in
      if d.invalidation_epoch == epoch then (k, d) ∷ rest else rest

  -- What is put comes back at its own key under its own epoch and profile.
  pub get-put :
      (d : CachedDecision) (items : Cache)
      → get d.key d.invalidation_epoch d.freshness_profile_id d.freshness_profile_fingerprint
          (put d items)
        ≡ some d.value
  unfolding get put
  get-put d items = ground (arith, lookup-insert d.key d.key d items)

  -- a decision is kept where it has the epoch
  kept : ℤ → Option CachedDecision → Option CachedDecision
  kept epoch none = none
  kept epoch (some d) = if d.invalidation_epoch == epoch then some d else none

  lookup_missing :
      (epoch : ℤ) (key : String) (items : Cache)
      → lookup key items ≡ none
      → lookup key (invalidate_epoch epoch items) ≡ none
  unfolding lookup invalidate_epoch
  lookup_missing epoch key [] h = refl
  lookup_missing epoch key ((k, d) ∷ items) h = ground (arith, lookup_missing epoch key items)

  lookup-invalidate_epoch :
      (epoch : ℤ) (key : String) (items : Cache)
      → NodupKeys items
      → lookup key (invalidate_epoch epoch items) ≡ kept epoch (lookup key items)
  unfolding lookup invalidate_epoch kept
  lookup-invalidate_epoch epoch key [] h = refl
  lookup-invalidate_epoch epoch key ((k, d) ∷ items) h =
      ground
        (arith, lookup-invalidate_epoch epoch key items h.1, lookup_missing epoch key items, h.0)

  -- With no key twice, an invalidation leaves every lookup under the new epoch as it was, and ends
  -- every lookup under another epoch.
  pub get-invalidate_epoch :
      (new epoch : ℤ) (key id fingerprint : String) (items : Cache)
      → NodupKeys items
      → get key epoch id fingerprint (invalidate_epoch new items)
        ≡ (if new == epoch then get key epoch id fingerprint items else none)
  unfolding get usable kept
  get-invalidate_epoch new epoch key id fingerprint items h =
      rw (lookup-invalidate_epoch new key items h) (elim (Option-cases (lookup key items)) [
        | inl absent ↦ rw absent (ground arith)
        | inr (d, found) ↦ rw found (ground arith)
      ])

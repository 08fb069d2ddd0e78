-- ===== src/TtlCache.antt =====
-- internal/ttlcache/ttlcache.go: the bounded cache with expiry. A method takes the reading of the
-- injected clock (`c.now()`, an instant in nanoseconds) and returns the new cache. `inflight` maps a
-- key to the number of its `call` object; the objects, which callers share, stand in TtlCache/Load.
pub mod Sizes
pub mod Reads
pub mod History
pub mod Survival
pub mod Eviction
pub mod Load
pub mod Entries
use deelp_pkg.Prelude.{
  ℕ, ◌+◌, ◌-◌, ℤ, pos, pos_part, neg_part, leb_ℤ, ltb_ℤ, leb, ltb, Bool, not, true, false, ◌&&◌,
  Option, none, some, List, [], ◌∷◌, if◌then◌else◌, length,
}
use deelp_pkg.Mapa.{Mapa, lookup, remove, put, retain}

pub record Item (V : Type 0) : Type 0 where
  pub value : V
  pub expires_at : ℕ

pub record Cache (K V : Type 0) : Type 0 where
  pub capacity : ℕ
  pub items : Mapa K (Item V)
  pub inflight : Mapa K ℕ

-- `instant.Add(duration)`.
abbrev pub add_duration : ℕ → ℤ → ℕ
add_duration t d = t + pos_part d - neg_part d

-- `New`.
unfoldable pub new : {K V : Type 0} → ℤ → Cache K V
new capacity =
    let bounded = if ltb_ℤ capacity (pos 1) then 1 else pos_part capacity in
    record { capacity = bounded; items = []; inflight = [] }

abbrev pub is_some {ℓ} : {A : Type ℓ} → Option A → Bool
is_some none = false
is_some (some a) = true

-- `!now.Before(entry.expiresAt)`.
abbrev pub expired : {V : Type 0} → ℕ → Item V → Bool
expired now entry = not (ltb now entry.expires_at)

module _ {K V : Type 0} where
  -- The loop of `evictSoonestLocked`: the victim found so far, with its expiry.
  pub soonest_from : Option (K × ℕ) → Mapa K (Item V) → Option (K × ℕ)
  soonest_from best [] = best
  soonest_from none ((key, entry) ∷ rest) = soonest_from (some (key, entry.expires_at)) rest
  soonest_from (some (victim, soonest)) ((key, entry) ∷ rest) =
      soonest_from
        (if ltb entry.expires_at soonest
          then some (key, entry.expires_at)
          else some (victim, soonest))
        rest

  -- `purgeLocked`.
  unfoldable pub purge_locked : ℕ → Mapa K (Item V) → Mapa K (Item V)
  unfolding retain
  purge_locked now items = retain (λ key entry. not (expired now entry)) items

  -- `Len`.
  abbrev pub len : Cache K V → ℕ
  len c = length c.items

  -- `DeleteFunc`.
  unfoldable pub delete_func : Cache K V → (K → V → Bool) → Cache K V
  unfolding retain
  delete_func c match = record c {
    items = retain (λ key entry. not (match key entry.value)) c.items;
  }

module _ {K V : Type 0} (dec : Discrete K) where
  -- `getLocked`, which is `Get` under the lock.
  unfoldable pub get_locked : ℕ → Cache K V → K → Cache K V × Option V
  get_locked now c key = elim (lookup dec key c.items) [
    | none ↦ (c, none)
    | some entry ↦
        if expired now entry
        then (record c { items = remove dec key c.items }, none)
        else (c, some entry.value)
  ]

  -- `evictSoonestLocked`.
  unfoldable pub evict_soonest_locked : Mapa K (Item V) → Mapa K (Item V)
  evict_soonest_locked items = elim (soonest_from none items) [
    | none ↦ items
    | some found ↦ remove dec found.0 items
  ]

  -- What `setLocked` does before it writes: room for a new key.
  unfoldable pub make_room : ℕ → ℕ → Mapa K (Item V) → Mapa K (Item V)
  make_room now capacity items =
      let purged = purge_locked now items in
      if leb capacity (length purged) then evict_soonest_locked purged else purged

  -- The entries that `setLocked` writes into: with room made, if the key is new and the cache full.
  unfoldable pub room_for : ℕ → Cache K V → K → Mapa K (Item V)
  room_for now c key =
      if not (is_some (lookup dec key c.items)) && leb c.capacity (length c.items)
      then make_room now c.capacity c.items
      else c.items

  -- `setLocked`.
  unfoldable pub set_locked : ℕ → Cache K V → K → V → ℤ → Cache K V
  set_locked now c key value ttl =
      let entry : Item V = record { value = value; expires_at = add_duration now ttl } in
      record c { items = put dec key entry (room_for now c key) }

  -- `Set`.
  unfoldable pub set : ℕ → Cache K V → K → V → ℤ → Cache K V
  set now c key value ttl = if leb_ℤ ttl (pos 0) then c else set_locked now c key value ttl

  -- `Delete`.
  unfoldable pub delete : Cache K V → K → Cache K V
  delete c key = record c { items = remove dec key c.items }

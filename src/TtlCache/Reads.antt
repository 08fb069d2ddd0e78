-- ===== src/TtlCache/Reads.antt =====
-- What a read returns after a write, and what an entry of the map was before room was made.
use deelp_pkg.Mapa.Laws.{lookup-put_self, lookup-remove-some, lookup-retain-some}
use deelp_pkg.TtlCache.Eviction.{evict_soonest_locked-Victim}
use deelp_pkg.TtlCache.Sizes.{purge_locked-UniqueKeys}
use deelp_pkg.TtlCache.{
  get_locked, set_locked, room_for, evict_soonest_locked, purge_locked, Cache, make_room, Item,
  soonest_from, expired, add_duration,
}
use deelp_pkg.Prelude.{
  ℕ, Option, ℤ, if◌then◌else◌, ◌≡◌, some, ◌∷◌, none, arith, ltb, false, not, [],
}
use deelp_pkg.Mapa.{UniqueKeys, Mapa, lookup}

-- A get right after a write has the value until the expiry, and nothing from then on.
module _ {K V : Type 0} (dec : Discrete K) where
  pub get_locked-set_locked :
      (now later : ℕ) (c : Cache K V) (key : K) (value : V) (ttl : ℤ)
      → (get_locked dec later (set_locked dec now c key value ttl) key).1
        ≡ (if ltb later (add_duration now ttl) then some value else none)
  unfolding get_locked set_locked
  get_locked-set_locked now later c key value ttl =
      let entry : Item V = record { value = value; expires_at = add_duration now ttl } in
      rw (lookup-put_self dec key entry (room_for dec now c key), get_locked) (ground arith)

  -- A cache agrees with an ideal map that knows each of its entries.
  abbrev pub Agrees : Cache K V → (K → Option (Item V)) → Type 0
  Agrees c h = (q : K) (e : Item V) → lookup dec q c.items ≡ some e → h q ≡ some e

  pub evict_soonest_locked-some :
      (m : Mapa K (Item V)) (q : K) (e : Item V)
      → UniqueKeys dec m
      → lookup dec q (evict_soonest_locked dec m) ≡ some e
      → lookup dec q m ≡ some e
  unfolding evict_soonest_locked soonest_from
  evict_soonest_locked-some [] q e u h = h
  evict_soonest_locked-some (x ∷ m) q e u h =
      let (k, v, eq) = evict_soonest_locked-Victim dec (x ∷ m) u (λ p. cc) in
      (lookup-remove-some dec k q e (x ∷ m) (rw eq at h)).0

  purge_locked-some :
      (now : ℕ) (m : Mapa K (Item V)) (q : K) (e : Item V)
      → UniqueKeys dec m
      → lookup dec q (purge_locked now m) ≡ some e
      → (lookup dec q m ≡ some e) × (expired now e ≡ false)
  unfolding purge_locked
  purge_locked-some now m q e u h =
      let kept = lookup-retain-some dec (λ key entry. not (expired now entry)) q e m u h in
      (kept.0, ground arith)

  pub room_for-some :
      (now : ℕ) (c : Cache K V) (key q : K) (e : Item V)
      → UniqueKeys dec c.items
      → lookup dec q (room_for dec now c key) ≡ some e
      → lookup dec q c.items ≡ some e
  unfolding room_for make_room
  room_for-some now c key q e u h =
      let purged = purge_locked now c.items in
      ground (
        arith,
        purge_locked-some now c.items q e u,
        evict_soonest_locked-some purged q e (purge_locked-UniqueKeys dec now c.items u),
      )

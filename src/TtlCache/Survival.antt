-- ===== src/TtlCache/Survival.antt =====
-- What `setLocked` does to the entries of other keys.
use deelp_pkg.Mapa.Laws.{lookup-put_ne, lookup-retain, lookup-remove_ne, lookup-remove-some}
use deelp_pkg.TtlCache.Eviction.{evict_soonest_locked-Victim}
use deelp_pkg.TtlCache.Sizes.{IsValid, purge_locked-UniqueKeys}
use deelp_pkg.Prelude.{
  [], true, false, none, some, inl, inr, refl, ◌&&◌, ℕ, ◌≡◌, ℤ, ◌≤◌, ◌⊎◌, Bool-cases, arith, length,
  ◌≢◌, leb, not, ◌∙◌,
}
use deelp_pkg.Mapa.{Mapa, UniqueKeys, lookup}
use deelp_pkg.TtlCache.{
  Item, make_room, purge_locked, room_for, set_locked, Cache, evict_soonest_locked, expired,
  add_duration, is_some,
}

module _ {K V : Type 0} (dec : Discrete K) where
  -- The entry `e` expires no later than any of `m`.
  abbrev pub IsSoonest : Item V → Mapa K (Item V) → Type 0
  IsSoonest e m = (r : K) (f : Item V) → lookup dec r m ≡ some f → e.expires_at ≤ f.expires_at

  lookup-purge_locked :
      (now : ℕ) (m : Mapa K (Item V)) (q : K) (e : Item V)
      → UniqueKeys dec m
      → lookup dec q m ≡ some e
      → expired now e ≡ false
      → lookup dec q (purge_locked now m) ≡ some e
  unfolding purge_locked
  lookup-purge_locked now m q e u h fresh =
      ground (arith, lookup-retain dec (λ key entry. not (expired now entry)) q e m u h)

  evict_soonest_locked-survives :
      (m : Mapa K (Item V)) (q : K) (e : Item V)
      → UniqueKeys dec m
      → lookup dec q m ≡ some e
      → (lookup dec q (evict_soonest_locked dec m) ≡ some e)
        ⊎ IsSoonest e (evict_soonest_locked dec m)
  evict_soonest_locked-survives m q e u h =
      let (k, v, eq) = evict_soonest_locked-Victim dec m u (λ p. ground (arith, nothing p)) in
      rw eq (elim (dec q k) [
        | yes p ↦ inr (λ r f l.
            let kept = lookup-remove-some dec k r f m l in
            ground (arith, v.present, v.least r f kept.0))
        | no n ↦ inl (lookup-remove_ne dec k q m n ∙ h)
      ])
    where
      nothing : m ≡ [] → lookup dec q m ≡ none
      nothing p = rw p (unfold lookup in refl)

  make_room-survives :
      (now capacity : ℕ) (m : Mapa K (Item V)) (q : K) (e : Item V)
      → UniqueKeys dec m
      → lookup dec q m ≡ some e
      → expired now e ≡ false
      → (lookup dec q (make_room dec now capacity m) ≡ some e)
        ⊎ IsSoonest e (make_room dec now capacity m)
  unfolding make_room
  make_room-survives now capacity m q e u h fresh =
      let kept = lookup-purge_locked now m q e u h fresh in
      elim (Bool-cases (leb capacity (length (purge_locked now m)))) [
        | inl full ↦ rw full (
            evict_soonest_locked-survives (purge_locked now m) q e
              (purge_locked-UniqueKeys dec now m u) kept)
        | inr room ↦ rw room (inl kept)
      ]

  room_for-survives :
      (now : ℕ) (c : Cache K V) (key q : K) (e : Item V)
      → IsValid dec c
      → lookup dec q c.items ≡ some e
      → (lookup dec q (room_for dec now c key) ≡ some e)
        ⊎ ((c.capacity ≤ length c.items)
            × (lookup dec key c.items ≡ none)
            × ((expired now e ≡ true) ⊎ IsSoonest e (room_for dec now c key)))
  unfolding room_for
  room_for-survives now c key q e v h =
      elim (Bool-cases
        (not (is_some (lookup dec key c.items)) && leb c.capacity (length c.items))) [
          | inr room ↦ rw room (inl h)
          | inl full ↦ rw full (elim (Bool-cases (expired now e)) [
            | inl old ↦ inr (ground arith, ground arith, inl old)
            | inr fresh ↦ elim (make_room-survives now c.capacity c.items q e v.unique h fresh) [
              | inl kept ↦ inl kept
              | inr least ↦ inr (ground arith, ground arith, inr least)
            ]
          ])
        ]

  -- In a valid cache, writing a key keeps the entry of every other key, unless the cache is full, the key
  -- new, and the entry either expired or expires no later than any that is left.
  pub set_locked-survives :
      (now : ℕ) (c : Cache K V) (key q : K) (value : V) (ttl : ℤ) (e : Item V)
      → IsValid dec c
      → q ≢ key
      → lookup dec q c.items ≡ some e
      → (lookup dec q (set_locked dec now c key value ttl).items ≡ some e)
        ⊎ ((c.capacity ≤ length c.items)
            × (lookup dec key c.items ≡ none)
            × ((expired now e ≡ true) ⊎ IsSoonest e (room_for dec now c key)))
  unfolding set_locked
  set_locked-survives now c key q value ttl e v n h =
      let entry : Item V = record { value = value; expires_at = add_duration now ttl } in
      rw (lookup-put_ne dec key q entry (room_for dec now c key) n)
        (room_for-survives now c key q e v h)

-- ===== src/TtlCache/Sizes.antt =====
-- The invariant of the cache: a positive capacity that the entries never exceed, one entry to a key.
use deelp_pkg.Prelude.{
  ℕ, ◌+◌, ◌≤◌, ◌<◌, ℤ, ◌≡◌, ◌≢◌, Bool, true, none, some, [], ◌∷◌, arith, length, Option-cases, not,
  Bool-cases, inl, inr, leb, leb_ℤ, pos,
}
use deelp_pkg.Mapa.{Mapa, lookup, put, UniqueKeys}
use deelp_pkg.Mapa.Laws.{
  length-put-le, length-put_old, length-put_old, length-remove-le, length-remove-lt,
  length-retain-le, put-UniqueKeys, remove-UniqueKeys, retain-UniqueKeys,
}
use deelp_pkg.TtlCache.{
  Item, Cache, new, soonest_from, purge_locked, evict_soonest_locked, make_room, room_for,
  get_locked, set_locked, set, delete, delete_func, expired,
}
use deelp_pkg.TtlCache.Eviction.{evict_soonest_locked-Victim}

pub record IsValid {K V : Type 0} (dec : Discrete K) (c : Cache K V) : Type 0 where
  pub positive : 1 ≤ c.capacity
  pub bounded : length c.items ≤ c.capacity
  pub unique : UniqueKeys dec c.items

-- `New` builds a valid, empty cache whatever the capacity asked for, zero and negative included.
pub new-IsValid :
    {K V : Type 0} (dec : Discrete K) (capacity : ℤ) → IsValid dec (new {K = K} {V = V} capacity)
unfolding new
new-IsValid dec capacity = record { positive = ground arith; bounded = omega arith; unique = tt }

module _ {K V : Type 0} (dec : Discrete K) where
  evict_soonest_locked-UniqueKeys :
      (m : Mapa K (Item V)) → UniqueKeys dec m → UniqueKeys dec (evict_soonest_locked dec m)
  unfolding evict_soonest_locked soonest_from
  evict_soonest_locked-UniqueKeys [] u = tt
  evict_soonest_locked-UniqueKeys (e ∷ m) u =
      let (k, v, eq) = evict_soonest_locked-Victim dec (e ∷ m) u (λ h. cc) in
      rw eq (remove-UniqueKeys dec k (e ∷ m) u)

  length-evict_soonest_locked :
      (m : Mapa K (Item V))
      → UniqueKeys dec m
      → m ≢ []
      → length (evict_soonest_locked dec m) + 1 ≤ length m
  length-evict_soonest_locked m u h =
      let (k, v, eq) = evict_soonest_locked-Victim dec m u h in
      rw eq (length-remove-lt dec k v.entry m v.present)

  pub purge_locked-UniqueKeys :
      (now : ℕ) (m : Mapa K (Item V)) → UniqueKeys dec m → UniqueKeys dec (purge_locked now m)
  unfolding purge_locked
  purge_locked-UniqueKeys now m u = retain-UniqueKeys dec _ m u

  length-purge_locked-le : (now : ℕ) (m : Mapa K (Item V)) → length (purge_locked now m) ≤ length m
  unfolding purge_locked
  length-purge_locked-le now m = length-retain-le dec _ m

  pub make_room-UniqueKeys :
      (now capacity : ℕ) (m : Mapa K (Item V))
      → UniqueKeys dec m
      → UniqueKeys dec (make_room dec now capacity m)
  unfolding make_room
  make_room-UniqueKeys now capacity m u =
      elim (Bool-cases (leb capacity (length (purge_locked now m)))) [
        | inl full ↦
            rw full (
              evict_soonest_locked-UniqueKeys (purge_locked now m)
                (purge_locked-UniqueKeys now m u))
        | inr room ↦ rw room (purge_locked-UniqueKeys now m u)
      ]

  ne_nil_of_full :
      (capacity : ℕ) (m : Mapa K (Item V)) → 1 ≤ capacity → leb capacity (length m) ≡ true → m ≢ []
  ne_nil_of_full capacity m p full e = ground arith

  -- After `make_room` a new key fits.
  length-make_room :
      (now capacity : ℕ) (m : Mapa K (Item V))
      → UniqueKeys dec m
      → 1 ≤ capacity
      → length m ≤ capacity
      → length (make_room dec now capacity m) < capacity
  unfolding make_room
  length-make_room now capacity m u p b =
      let kept = length-purge_locked-le now m in
      elim (Bool-cases (leb capacity (length (purge_locked now m)))) [
        | inl full ↦
            let shrunk =
              length-evict_soonest_locked (purge_locked now m) (purge_locked-UniqueKeys now m u)
                (ne_nil_of_full capacity (purge_locked now m) p full) in
            rw full (omega arith)
        | inr room ↦ rw room (ground arith)
      ]

  room_for-UniqueKeys :
      (now : ℕ) (c : Cache K V) (key : K)
      → UniqueKeys dec c.items
      → UniqueKeys dec (room_for dec now c key)
  unfolding room_for
  room_for-UniqueKeys now c key u = ground (arith, make_room-UniqueKeys now c.capacity c.items u)

  room_for_old :
      (now : ℕ) (c : Cache K V) (key : K) (old : Item V)
      → lookup dec key c.items ≡ some old
      → room_for dec now c key ≡ c.items
  unfolding room_for
  room_for_old now c key old e = rw e

  length-room_for :
      (now : ℕ) (c : Cache K V) (key : K)
      → IsValid dec c
      → lookup dec key c.items ≡ none
      → length (room_for dec now c key) < c.capacity
  unfolding room_for
  length-room_for now c key h e =
      ground (arith, length-make_room now c.capacity c.items h.unique h.positive h.bounded)

  length-set_locked :
      (now : ℕ) (c : Cache K V) (key : K) (entry : Item V)
      → IsValid dec c
      → length (put dec key entry (room_for dec now c key)) ≤ c.capacity
  length-set_locked now c key entry h = elim (Option-cases (lookup dec key c.items)) [
    | inl e ↦
        omega (
          arith,
          length-put-le dec key entry (room_for dec now c key),
          length-room_for now c key h e,
        )
    | inr (old, e) ↦
        rw (room_for_old now c key old e, length-put_old dec key entry old c.items e) h.bounded
  ]

  -- `setLocked` keeps the invariant, for a new key and an old one, full or not.
  pub set_locked-IsValid :
      (now : ℕ) (c : Cache K V) (key : K) (value : V) (ttl : ℤ)
      → IsValid dec c
      → IsValid dec (set_locked dec now c key value ttl)
  unfolding set_locked
  set_locked-IsValid now c key value ttl h = record {
    positive = h.positive;
    bounded = length-set_locked now c key _ h;
    unique =
        put-UniqueKeys dec key _ (room_for dec now c key) (room_for-UniqueKeys now c key h.unique);
  }

  -- `Set` with any ttl keeps the invariant: a positive capacity, no more entries than it, no key twice.
  pub set-IsValid :
      (now : ℕ) (c : Cache K V) (key : K) (value : V) (ttl : ℤ)
      → IsValid dec c
      → IsValid dec (set dec now c key value ttl)
  unfolding set
  set-IsValid now c key value ttl h = elim (Bool-cases (leb_ℤ ttl (pos 0))) [
    | inl e ↦ rw e h
    | inr e ↦ rw e (set_locked-IsValid now c key value ttl h)
  ]

  pub delete-IsValid : (c : Cache K V) (key : K) → IsValid dec c → IsValid dec (delete dec c key)
  unfolding delete
  delete-IsValid c key h = record {
    positive = h.positive;
    bounded = omega (arith, h.bounded, length-remove-le dec key c.items);
    unique = remove-UniqueKeys dec key c.items h.unique;
  }

  -- `Get` keeps the invariant: it drops an expired entry or changes nothing.
  pub get_locked-IsValid :
      (now : ℕ) (c : Cache K V) (key : K) → IsValid dec c → IsValid dec (get_locked dec now c key).0
  unfolding get_locked
  get_locked-IsValid now c key h = elim (Option-cases (lookup dec key c.items)) [
    | inl e ↦ rw (e, get_locked) h
    | inr (entry, e) ↦ elim (Bool-cases (expired now entry)) [
      | inl old ↦ rw (e, get_locked, old) (unfold delete in delete-IsValid c key h)
      | inr fresh ↦ rw (e, get_locked, fresh) h
    ]
  ]

  pub delete_func-IsValid :
      (c : Cache K V) (match : K → V → Bool) → IsValid dec c → IsValid dec (delete_func c match)
  unfolding delete_func
  delete_func-IsValid c match h = record {
    positive = h.positive;
    bounded =
        omega (
          arith,
          h.bounded,
          length-retain-le dec (λ key entry. not (match key entry.value)) c.items,
        );
    unique = retain-UniqueKeys dec _ c.items h.unique;
  }

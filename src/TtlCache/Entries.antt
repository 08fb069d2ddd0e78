-- ===== src/TtlCache/Entries.antt =====
-- A predicate on the entries that every method keeps, if what is stored has it.
use deelp_pkg.Prelude.{
  [], ◌∷◌, none, some, true, pos, inl, inr, All, Bool, Option-cases, ℕ, Bool-cases, not, ℤ, leb,
  length, ◌&&◌, leb_ℤ, ltb_ℤ, ◌≡◌, refl,
}
use deelp_pkg.Mapa.{Mapa, lookup, remove, put, retain}
use deelp_pkg.TtlCache.{
  Item, Cache, add_duration, expired, soonest_from, purge_locked, delete_func, get_locked,
  evict_soonest_locked, make_room, room_for, set_locked, set, is_some,
}
use deelp_pkg.TtlCache.Load.{Outcome, returned, load_settle, load_alone, panicked, answer, Answer}
use mathlib.Core.Logic.{ite}

module _ {K V : Type 0} (P : K → Item V → Type 0) where
  -- Of every entry.
  abbrev pub Entries : Mapa K (Item V) → Type 0
  Entries m = All (λ kv. P kv.0 kv.1) m

  retain-Entries :
      (test : K → Item V → Bool) (m : Mapa K (Item V)) → Entries m → Entries (retain test m)
  unfolding retain
  retain-Entries test [] h = tt
  retain-Entries test ((k, v) ∷ m) (h, hs) = elim (Bool-cases (test k v)) [
    | inl e ↦ rw e (h, retain-Entries test m hs)
    | inr e ↦ rw e (retain-Entries test m hs)
  ]

  pub delete_func-Entries :
      (c : Cache K V) (match : K → V → Bool) → Entries c.items → Entries (delete_func c match).items
  unfolding delete_func
  delete_func-Entries c match h =
      retain-Entries (λ key entry. not (match key entry.value)) c.items h

  module _ (dec : Discrete K) where
    remove-Entries : (k : K) (m : Mapa K (Item V)) → Entries m → Entries (remove dec k m)
    unfolding remove
    remove-Entries k [] h = tt
    remove-Entries k ((j, v) ∷ m) (h, hs) =
        elim (dec j k) as (λ d. Entries (ite d (remove dec k m) ((j, v) ∷ remove dec k m))) [
          | yes e ↦ remove-Entries k m hs
          | no n ↦ (h, remove-Entries k m hs)
        ]

    put-Entries :
        (k : K) (v : Item V) (m : Mapa K (Item V)) → P k v → Entries m → Entries (put dec k v m)
    unfolding put
    put-Entries k v [] p h = (p, tt)
    put-Entries k v ((j, w) ∷ m) p (h, hs) =
        elim (dec j k) as (λ d. Entries (ite d ((k, v) ∷ m) ((j, w) ∷ put dec k v m))) [
          | yes e ↦ (p, hs)
          | no n ↦ (h, put-Entries k v m p hs)
        ]

    get_locked-Entries :
        (now : ℕ) (c : Cache K V) (key : K)
        → Entries c.items
        → Entries (get_locked dec now c key).0.items
    unfolding get_locked
    get_locked-Entries now c key h = elim (Option-cases (lookup dec key c.items)) [
      | inl e ↦ rw (get_locked, e) h
      | inr (entry, e) ↦ elim (Bool-cases (expired now entry)) [
        | inl x ↦ rw (get_locked, e, x) (remove-Entries key c.items h)
        | inr x ↦ rw (get_locked, e, x) h
      ]
    ]

    evict-Entries : (m : Mapa K (Item V)) → Entries m → Entries (evict_soonest_locked dec m)
    unfolding evict_soonest_locked
    evict-Entries m h = elim (Option-cases (soonest_from none m)) [
      | inl e ↦ rw (evict_soonest_locked, e) h
      | inr (found, e) ↦ rw (evict_soonest_locked, e) (remove-Entries found.0 m h)
    ]

    make_room-Entries :
        (now n : ℕ) (m : Mapa K (Item V)) → Entries m → Entries (make_room dec now n m)
    unfolding make_room purge_locked
    make_room-Entries now n m h =
        let q = retain-Entries (λ key entry. not (expired now entry)) m h in
        elim (Bool-cases (leb n (length (purge_locked now m)))) [
          | inl e ↦ rw e (evict-Entries (purge_locked now m) q)
          | inr e ↦ rw e q
        ]

    room_for-Entries :
        (now : ℕ) (c : Cache K V) (key : K) → Entries c.items → Entries (room_for dec now c key)
    unfolding room_for
    room_for-Entries now c key h =
        elim (Bool-cases
          (not (is_some (lookup dec key c.items)) && leb c.capacity (length c.items))) [
            | inl e ↦ rw e (make_room-Entries now c.capacity c.items h)
            | inr e ↦ rw e h
          ]

    set_locked-Entries :
        (now : ℕ) (c : Cache K V) (key : K) (value : V) (ttl : ℤ)
        → P key (record { value = value; expires_at = add_duration now ttl })
        → Entries c.items
        → Entries (set_locked dec now c key value ttl).items
    unfolding set_locked
    set_locked-Entries now c key value ttl p h =
        put-Entries key (record { value = value; expires_at = add_duration now ttl })
          (room_for dec now c key) p (room_for-Entries now c key h)

    pub set-Entries :
        (now : ℕ) (c : Cache K V) (key : K) (value : V) (ttl : ℤ)
        → P key (record { value = value; expires_at = add_duration now ttl })
        → Entries c.items
        → Entries (set dec now c key value ttl).items
    unfolding set
    set-Entries now c key value ttl p h = elim (Bool-cases (leb_ℤ ttl (pos 0))) [
      | inl e ↦ rw e h
      | inr e ↦ rw e (set_locked-Entries now c key value ttl p h)
    ]

    -- What the loader gives may be stored.
    abbrev pub Storable : {E : Type 0} → ℕ → K → Outcome V E → Type 0
    Storable later key (returned value ttl none) =
        ltb_ℤ (pos 0) ttl ≡ true
        → P key (record { value = value; expires_at = add_duration later ttl })
    Storable later key (returned value ttl (some e)) = Unit
    Storable later key panicked = Unit

    load_settle-Entries :
        {E : Type 0} (later : ℕ) (c : Cache K V) (key : K) (o : Outcome V E)
        → Storable later key o
        → Entries c.items
        → Entries (load_settle dec later c key o).items
    unfolding load_settle
    load_settle-Entries later c key (returned value ttl none) p h =
        elim (Bool-cases (ltb_ℤ (pos 0) ttl)) [
          | inl e ↦ rw e (
              set_locked-Entries later (record c { inflight = remove dec key c.inflight }) key value
                ttl (p e) h)
          | inr e ↦ rw e h
        ]
    load_settle-Entries later c key (returned value ttl (some e)) p h = h
    load_settle-Entries later c key panicked p h = h

    pub load_alone-Entries :
        {E : Type 0} (now later : ℕ) (junto : ℕ → Answer V E) (c : Cache K V) (key : K) (z : V)
        (a : E) (o : Outcome V E)
        → Storable later key o
        → Entries c.items
        → Entries (load_alone dec now later junto c key z a o).0.items
    unfolding load_alone
    load_alone-Entries now later junto c key z a o p h =
        let k = get_locked-Entries now c key h in
        elim (Option-cases (get_locked dec now c key).1) [
          | inl e ↦ elim (Option-cases (lookup dec key (get_locked dec now c key).0.inflight)) [
            | inl f ↦
                rw (load_alone, e, f)
                  (load_settle-Entries later (get_locked dec now c key).0 key o p k)
            | inr (id, f) ↦ rw (load_alone, e, f) k
          ]
          | inr (v, e) ↦ rw (load_alone, e) k
        ]

    get_locked-miss :
        (now : ℕ) (c : Cache K V) (key : K)
        → lookup dec key c.items ≡ none
        → lookup dec key c.inflight ≡ none
        → ((get_locked dec now c key).1 ≡ none)
          × (lookup dec key (get_locked dec now c key).0.inflight ≡ none)
    unfolding get_locked
    get_locked-miss now c key h n = rw (get_locked, h) (refl, n)

    -- On a miss with no call in flight the answer is the loader's.
    pub load_alone-miss :
        {E : Type 0} (now later : ℕ) (junto : ℕ → Answer V E) (c : Cache K V) (key : K) (z : V)
        (a : E) (o : Outcome V E)
        → lookup dec key c.items ≡ none
        → lookup dec key c.inflight ≡ none
        → (load_alone dec now later junto c key z a o).1 ≡ answer z a o
    unfolding load_alone
    load_alone-miss now later junto c key z a o h n =
        let (e, f) = get_locked-miss now c key h n in rw (load_alone, e, f) refl

-- ===== src/TtlCache/Eviction.antt =====
-- `evictSoonestLocked`: which entry leaves.
use deelp_pkg.Prelude.{
  ℕ, ◌≤◌, ◌<◌, ◌≡◌, ◌≢◌, ◌⊎◌, inl, inr, refl, none, some, [], ◌∷◌, arith, ltb, Bool-cases,
}
use deelp_pkg.Mapa.{Mapa, lookup, remove, UniqueKeys}
use deelp_pkg.TtlCache.{Item, soonest_from, evict_soonest_locked}

-- What the loop ends with, from the best entry so far `(k, t)` over the entries `m`.
record Soonest {K V : Type 0} (dec : Discrete K) (k : K) (t : ℕ) (m : Mapa K (Item V)) (r : K × ℕ)
    : Type 0 where
  at_most : r.1 ≤ t
  found : (r ≡ (k, t)) ⊎ ((e : Item V) × (lookup dec r.0 m ≡ some e) × (e.expires_at ≡ r.1))
  least : (q : K) (e : Item V) → lookup dec q m ≡ some e → r.1 ≤ e.expires_at

-- The victim of a map: an entry of it, and none expires sooner.
pub record Victim {K V : Type 0} (dec : Discrete K) (m : Mapa K (Item V)) (k : K) : Type 0 where
  pub entry : Item V
  pub present : lookup dec k m ≡ some entry
  pub least : (q : K) (e : Item V) → lookup dec q m ≡ some e → entry.expires_at ≤ e.expires_at

module _ {K V : Type 0} (dec : Discrete K) where
  module _ (j : K) (entry : Item V) (m : Mapa K (Item V)) (k : K) (t : ℕ) (r : K × ℕ) where
    Soonest-cons_sooner :
        entry.expires_at < t
        → lookup dec j m ≡ none
        → Soonest dec j entry.expires_at m r
        → Soonest dec k t ((j, entry) ∷ m) r
    unfolding lookup
    Soonest-cons_sooner h a s = record {
      at_most = omega arith;
      found = elim s.found [
        | inl p ↦ inr (entry, ground arith, ground arith)
        | inr (e, p, q) ↦ inr (e, ground arith, q)
      ];
      least = λ q e p. ground (arith, s.least q e);
    }

    Soonest-cons_later :
        t ≤ entry.expires_at
        → lookup dec j m ≡ none
        → Soonest dec k t m r
        → Soonest dec k t ((j, entry) ∷ m) r
    unfolding lookup
    Soonest-cons_later h a s = record {
      at_most = omega arith;
      found = elim s.found [ inl p ↦ inl p | inr (e, p, q) ↦ inr (e, ground arith, q) ];
      least = λ q e p. ground (arith, s.least q e);
    }

  soonest_from-Soonest :
      (m : Mapa K (Item V)) (k : K) (t : ℕ)
      → UniqueKeys dec m
      → (r : K × ℕ) × (soonest_from (some (k, t)) m ≡ some r) × Soonest dec k t m r
  unfolding soonest_from lookup
  soonest_from-Soonest [] k t u = (
    (k, t),
    refl,
    record { at_most = omega arith; found = inl refl; least = λ q e h. ground arith },
  )
  soonest_from-Soonest ((j, entry) ∷ m) k t (a, u) = elim (Bool-cases (ltb entry.expires_at t)) [
    | inl sooner ↦
        let (r, e, s) = soonest_from-Soonest m j entry.expires_at u in
        (r, rw sooner e, Soonest-cons_sooner j entry m k t r (ground arith) a s)
    | inr later ↦
        let (r, e, s) = soonest_from-Soonest m k t u in
        (r, rw later e, Soonest-cons_later j entry m k t r (ground arith) a s)
  ]

  Victim-of_Soonest :
      (k : K) (entry : Item V) (m : Mapa K (Item V)) (r : K × ℕ)
      → lookup dec k m ≡ none
      → Soonest dec k entry.expires_at m r
      → Victim dec ((k, entry) ∷ m) r.0
  unfolding lookup
  Victim-of_Soonest k entry m r a s = elim s.found [
    | inl p ↦ record {
      entry = entry;
      present = ground arith;
      least = λ q e h. ground (arith, s.least q e);
    }
    | inr (f, p, w) ↦ record {
      entry = f;
      present = ground arith;
      least = λ q e h. ground (arith, s.least q e);
    }
  ]

  -- A map with an entry and no key twice loses by the eviction exactly one key, whose entry expires no later
  -- than any other.
  pub evict_soonest_locked-Victim :
      (m : Mapa K (Item V))
      → UniqueKeys dec m
      → m ≢ []
      → (k : K) × Victim dec m k × (evict_soonest_locked dec m ≡ remove dec k m)
  unfolding evict_soonest_locked soonest_from
  evict_soonest_locked-Victim [] u h = absurd (h refl)
  evict_soonest_locked-Victim ((j, entry) ∷ m) (a, u) h =
      let (r, e, s) = soonest_from-Soonest m j entry.expires_at u in
      (r.0, Victim-of_Soonest j entry m r a s, rw (e, evict_soonest_locked))

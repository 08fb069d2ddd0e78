-- ===== src/TtlCache/History.antt =====
-- The cache against an ideal map that has no capacity and drops nothing by itself.
use deelp_pkg.TtlCache.{
  set as cache_set, delete as cache_delete, delete_func as cache_delete_func, get_locked,
  set_locked, room_for, Cache, new, Item, len, add_duration,
}
use deelp_pkg.TtlCache.Reads.{Agrees, room_for-some}
use deelp_pkg.TtlCache.Sizes.{
  IsValid, new-IsValid, set-IsValid, delete-IsValid, get_locked-IsValid, delete_func-IsValid,
}
use deelp_pkg.Mapa.Laws.{lookup-put_self, lookup-put_ne, lookup-remove-some, lookup-retain-some}
use deelp_pkg.Prelude.{
  [], ◌∷◌, none, some, pos, inl, inr, ℕ, Option, List, ℤ, Bool, ◌≡◌, if◌then◌else◌, arith, ◌<◌, not,
  ◌≤◌, leb_ℤ, Option-cases, sym,
}
use deelp_pkg.Mapa.{UniqueKeys, lookup}
use mathlib.Core.Logic.{ite, if_neg}

-- The calls that change a cache, each with the reading of the clock.
pub data Call (K V : Type 0) : Type 0 where
  get : ℕ → K → Call K V
  set : ℕ → K → V → ℤ → Call K V
  delete : K → Call K V
  delete_func : (K → V → Bool) → Call K V

module _ {K V : Type 0} (dec : Discrete K) where
  unfoldable pub apply : Cache K V → Call K V → Cache K V
  apply c (get now k) = (get_locked dec now c k).0
  apply c (set now k v ttl) = cache_set dec now c k v ttl
  apply c (delete k) = cache_delete dec c k
  apply c (delete_func match) = cache_delete_func c match

  unfoldable pub run : Cache K V → List (Call K V) → Cache K V
  run c [] = c
  run c (call ∷ calls) = run (apply c call) calls

  -- The ideal map after a call: a write with a positive ttl is kept for ever, a read changes nothing.
  abbrev filtered : (K → V → Bool) → K → Option (Item V) → Option (Item V)
  filtered match q none = none
  filtered match q (some e) = if match q e.value then none else some e

  abbrev pub note : (K → Option (Item V)) → Call K V → K → Option (Item V)
  note h (get now k) q = h q
  note h (set now k v ttl) q =
      if leb_ℤ ttl (pos 0)
      then h q
      else ite (dec k q) (some (record { value = v; expires_at = add_duration now ttl })) (h q)
  note h (delete k) q = ite (dec k q) none (h q)
  note h (delete_func match) q = filtered match q (h q)

  unfoldable pub history : (K → Option (Item V)) → List (Call K V) → K → Option (Item V)
  history h [] = h
  history h (call ∷ calls) = history (note h call) calls

  apply-IsValid : (c : Cache K V) (call : Call K V) → IsValid dec c → IsValid dec (apply c call)
  unfolding apply
  apply-IsValid c (get now k) v = get_locked-IsValid dec now c k v
  apply-IsValid c (set now k w ttl) v = set-IsValid dec now c k w ttl v
  apply-IsValid c (delete k) v = delete-IsValid dec c k v
  apply-IsValid c (delete_func match) v = delete_func-IsValid dec c match v

  set_locked-Agrees :
      (now : ℕ) (c : Cache K V) (k : K) (v : V) (ttl : ℤ) (h : K → Option (Item V)) (q : K)
      (e : Item V)
      → UniqueKeys dec c.items
      → Agrees dec c h
      → lookup dec q (set_locked dec now c k v ttl).items ≡ some e
      → ite (dec k q) (some (record { value = v; expires_at = add_duration now ttl })) (h q)
        ≡ some e
  unfolding set_locked
  set_locked-Agrees now c k v ttl h q e u a l =
      let entry : Item V = record { value = v; expires_at = add_duration now ttl } in
      elim (dec k q) [
        | yes p ↦ ground (arith, lookup-put_self dec k entry (room_for dec now c k))
        | no n ↦ rw (if_neg _ n) (
            a q e (
              room_for-some dec now c k q e u (
                ground
                  (arith, lookup-put_ne dec k q entry (room_for dec now c k) (λ p. n (sym p))))))
      ]

  apply-Agrees :
      (c : Cache K V) (call : Call K V) (h : K → Option (Item V))
      → IsValid dec c
      → Agrees dec c h
      → Agrees dec (apply c call) (note h call)
  unfolding apply get_locked cache_set cache_delete cache_delete_func
  apply-Agrees c (get now k) h v a q e l =
      ground (arith, a q e, lookup-remove-some dec k q e c.items)
  apply-Agrees c (set now k w ttl) h v a q e l =
      ground (arith, a q e, set_locked-Agrees now c k w ttl h q e v.unique a)
  apply-Agrees c (delete k) h v a q e l =
      ground (arith, a q e, lookup-remove-some dec k q e c.items)
  apply-Agrees c (delete_func match) h v a q e l =
      let kept =
        lookup-retain-some dec (λ key entry. not (match key entry.value)) q e c.items v.unique l in
      ground (arith, a q e kept.0)

  new-Agrees : (capacity : ℤ) → Agrees dec (new {K = K} {V = V} capacity) (λ _. none)
  unfolding new lookup
  new-Agrees capacity q e l = ground arith

  hit_entry :
      (c : Cache K V) (h : K → Option (Item V)) (now : ℕ) (key : K) (value : V)
      → Agrees dec c h
      → (get_locked dec now c key).1 ≡ some value
      → (e : Item V) × (h key ≡ some e) × (e.value ≡ value) × (now < e.expires_at)
  unfolding get_locked
  hit_entry c h now key value a hit = elim (Option-cases (lookup dec key c.items)) [
    | inl miss ↦ absurd (ground arith)
    | inr (e, found) ↦ (e, a key e found, ground arith, ground arith)
  ]

  run-Agrees :
      (calls : List (Call K V)) (c : Cache K V) (h : K → Option (Item V))
      → IsValid dec c
      → Agrees dec c h
      → IsValid dec (run c calls) × Agrees dec (run c calls) (history h calls)
  unfolding run history
  run-Agrees [] c h v a = (v, a)
  run-Agrees (call ∷ calls) c h v a =
      run-Agrees calls (apply c call) (note h call) (apply-IsValid c call v)
        (apply-Agrees c call h v a)

  -- After any calls on a new cache of any capacity, the cache holds no more entries than its
  -- capacity, and a read that hits returns the value of the last write of that key that was not
  -- deleted since, before that write expires.
  pub get_locked-history :
      (capacity : ℤ) (calls : List (Call K V)) (now : ℕ) (key : K) (value : V)
      → (get_locked dec now (run (new capacity) calls) key).1 ≡ some value
      → (len (run (new capacity) calls) ≤ (run (new capacity) calls).capacity)
        × ((e : Item V) × (history (λ _. none) calls key ≡ some e)
            × (e.value ≡ value)
            × (now < e.expires_at))
  get_locked-history capacity calls now key value hit =
      let (v, a) =
        run-Agrees calls (new capacity) (λ _. none) (new-IsValid dec capacity)
          (new-Agrees capacity) in
      (
        v.bounded,
        hit_entry (run (new capacity) calls) (history (λ _. none) calls) now key value a hit,
      )

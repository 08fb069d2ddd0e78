-- ===== src/Mapa/Laws.antt =====
-- Laws of the maps: reads after writes, sizes, and unique keys.
use deelp_pkg.Prelude.{
  suc, ◌+◌, ◌≤◌, ◌≡◌, refl, ◌≢◌, Bool, none, some, [], ◌∷◌, arith, length, if◌then◌else◌, ◌∙◌, true,
  Option-cases, inl, inr,
}
use deelp_pkg.Mapa.{Mapa, lookup, remove, put, retain, UniqueKeys}

module _ {ℓ} {K : Type ℓ} {V : Type ℓ} (dec : Discrete K) where
  pub lookup-put_self : (k : K) (v : V) (m : Mapa K V) → lookup dec k (put dec k v m) ≡ some v
  unfolding lookup put
  lookup-put_self k v [] = ground arith
  lookup-put_self k v ((j, w) ∷ m) = ground (arith, lookup-put_self k v m)

  pub lookup-put_ne :
      (k q : K) (v : V) (m : Mapa K V) → q ≢ k → lookup dec q (put dec k v m) ≡ lookup dec q m
  unfolding lookup put
  lookup-put_ne k q v [] h = ground arith
  lookup-put_ne k q v ((j, w) ∷ m) h = ground (arith, lookup-put_ne k q v m h)

  pub lookup-remove_self : (k : K) (m : Mapa K V) → lookup dec k (remove dec k m) ≡ none
  unfolding lookup remove
  lookup-remove_self k [] = refl
  lookup-remove_self k ((j, w) ∷ m) = ground (arith, lookup-remove_self k m)

  pub lookup-remove_ne :
      (k q : K) (m : Mapa K V) → q ≢ k → lookup dec q (remove dec k m) ≡ lookup dec q m
  unfolding lookup remove
  lookup-remove_ne k q [] h = refl
  lookup-remove_ne k q ((j, w) ∷ m) h = ground (arith, lookup-remove_ne k q m h)

  pub remove_absent : (k : K) (m : Mapa K V) → lookup dec k m ≡ none → remove dec k m ≡ m
  unfolding lookup remove
  remove_absent k [] h = refl
  remove_absent k ((j, w) ∷ m) h = ground (arith, remove_absent k m)

  pub length-put_new :
      (k : K) (v : V) (m : Mapa K V)
      → lookup dec k m ≡ none
      → length (put dec k v m) ≡ suc (length m)
  unfolding lookup put
  length-put_new k v [] h = refl
  length-put_new k v ((j, w) ∷ m) h = ground (arith, length-put_new k v m)

  pub length-put-le : (k : K) (v : V) (m : Mapa K V) → length (put dec k v m) ≤ suc (length m)
  unfolding put
  length-put-le k v [] = omega arith
  length-put-le k v ((j, w) ∷ m) = ground (arith, length-put-le k v m)

  pub length-put_old :
      (k : K) (v w : V) (m : Mapa K V) → lookup dec k m ≡ some w → length (put dec k v m) ≡ length m
  unfolding lookup put
  length-put_old k v w [] h = ground arith
  length-put_old k v w ((j, x) ∷ m) h = ground (arith, length-put_old k v w m)

  pub length-remove-le : (k : K) (m : Mapa K V) → length (remove dec k m) ≤ length m
  unfolding remove
  length-remove-le k [] = omega arith
  length-remove-le k ((j, w) ∷ m) = ground (arith, length-remove-le k m)

  pub length-remove-lt :
      (k : K) (v : V) (m : Mapa K V)
      → lookup dec k m ≡ some v
      → length (remove dec k m) + 1 ≤ length m
  unfolding lookup remove
  length-remove-lt k v [] h = ground arith
  length-remove-lt k v ((j, w) ∷ m) h = ground (arith, length-remove-lt k v m, length-remove-le k m)

  pub length-retain-le : (p : K → V → Bool) (m : Mapa K V) → length (retain p m) ≤ length m
  unfolding retain
  length-retain-le p [] = omega arith
  length-retain-le p ((j, w) ∷ m) = ground (arith, length-retain-le p m)

  lookup-remove-none :
      (k q : K) (m : Mapa K V) → lookup dec q m ≡ none → lookup dec q (remove dec k m) ≡ none
  unfolding lookup remove
  lookup-remove-none k q [] h = refl
  lookup-remove-none k q ((j, w) ∷ m) h = ground (arith, lookup-remove-none k q m)

  pub lookup-retain-none :
      (p : K → V → Bool) (q : K) (m : Mapa K V)
      → lookup dec q m ≡ none
      → lookup dec q (retain p m) ≡ none
  unfolding lookup retain
  lookup-retain-none p q [] h = refl
  lookup-retain-none p q ((j, w) ∷ m) h = ground (arith, lookup-retain-none p q m)

  pub remove-UniqueKeys :
      (k : K) (m : Mapa K V) → UniqueKeys dec m → UniqueKeys dec (remove dec k m)
  unfolding remove
  remove-UniqueKeys k [] u = tt
  remove-UniqueKeys k ((j, w) ∷ m) (a, u) =
      ground (arith, remove-UniqueKeys k m u, lookup-remove-none k j m a)

  pub put-UniqueKeys :
      (k : K) (v : V) (m : Mapa K V) → UniqueKeys dec m → UniqueKeys dec (put dec k v m)
  unfolding put lookup
  put-UniqueKeys k v [] u = ground arith
  put-UniqueKeys k v ((j, w) ∷ m) (a, u) =
      ground (arith, put-UniqueKeys k v m u, lookup-put_ne k j v m)

  pub retain-UniqueKeys :
      (p : K → V → Bool) (m : Mapa K V) → UniqueKeys dec m → UniqueKeys dec (retain p m)
  unfolding retain
  retain-UniqueKeys p [] u = tt
  retain-UniqueKeys p ((j, w) ∷ m) (a, u) =
      ground (arith, retain-UniqueKeys p m u, lookup-retain-none p j m a)

  -- What the sweep leaves of a key: its entry, if that passes the test.
  pub lookup-retain :
      (p : K → V → Bool) (q : K) (v : V) (m : Mapa K V)
      → UniqueKeys dec m
      → lookup dec q m ≡ some v
      → lookup dec q (retain p m) ≡ (if p q v then some v else none)
  unfolding lookup retain
  lookup-retain p q v [] u h = ground arith
  lookup-retain p q v ((j, w) ∷ m) (a, u) h =
      ground (arith, lookup-retain p q v m u, lookup-retain-none p j m a)

  -- Nothing that the sweep or a delete leaves is new.
  pub lookup-remove-some :
      (k q : K) (v : V) (m : Mapa K V)
      → lookup dec q (remove dec k m) ≡ some v
      → (lookup dec q m ≡ some v) × (q ≢ k)
  unfolding lookup remove
  lookup-remove-some k q v [] h = (ground arith, λ e. ground arith)
  lookup-remove-some k q v ((j, w) ∷ m) h = elim (dec j k) [
    | yes p ↦ let ih = lookup-remove-some k q v m (ground arith) in (ground arith, ih.1)
    | no p ↦ elim (dec j q) [
      | yes e ↦ (ground arith, λ e'. p (e ∙ e'))
      | no n ↦ let ih = lookup-remove-some k q v m (ground arith) in (ground arith, ih.1)
    ]
  ]

  pub lookup-retain-some :
      (p : K → V → Bool) (q : K) (v : V) (m : Mapa K V)
      → UniqueKeys dec m
      → lookup dec q (retain p m) ≡ some v
      → (lookup dec q m ≡ some v) × (p q v ≡ true)
  lookup-retain-some p q v m u h = elim (Option-cases (lookup dec q m)) [
    | inl e ↦ absurd (ground (arith, lookup-retain-none p q m e))
    | inr (w, e) ↦ ground (arith, lookup-retain p q w m u e)
  ]

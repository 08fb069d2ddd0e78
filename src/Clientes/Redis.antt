-- ===== src/Clientes/Redis.antt =====
-- cache/cache.go: `CacheService` over a client of Redis, with the JSON of its values.
use deelp_pkg.Texto.{Texto}
use deelp_pkg.Prelude.{[], ◌∷◌, true, false, none, some, refl, Bool, List, Option, ℤ, ltb, ℕ, ◌≡◌}

-- What Redis answers to a read: a value, no key, or an error.
pub data Lido : Type 0 where
  valor : Texto → Lido
  ausente erro_redis : Lido

-- The client, on a store; a write says whether it went through.
pub record Redis (S : Type 0) : Type 0 where
  pub get : S → Texto → Lido
  pub set : S → Texto → Texto → ℤ → S × Bool
  pub del : S → List Texto → S × Bool
  pub keys : S → Texto → Option (List Texto)
  pub exists_ : S → Texto → Option ℕ

-- `json.Marshal` and `json.Unmarshal` at the type of a value.
pub record Json (A : Type 0) : Type 0 where
  pub marshal : A → Option Texto
  pub unmarshal : Texto → Option A

-- How `Get` ends.
pub data Resultado (A : Type 0) : Type 0 where
  encontrado : A → Resultado A
  cache_miss falha json_invalido : Resultado A

abbrev decodificado : {A : Type 0} → Option A → Resultado A
decodificado none = json_invalido
decodificado (some a) = encontrado a

module _ {S A : Type 0} (r : Redis S) (j : Json A) where
  -- `Get`.
  abbrev do_lido : Lido → Resultado A
  do_lido ausente = cache_miss
  do_lido erro_redis = falha
  do_lido (valor t) = decodificado (j.unmarshal t)

  unfoldable pub get : S → Texto → Resultado A
  get s key = do_lido (r.get s key)

  -- `SetWithTTL`, and `Set` with the ttl of the service.
  unfoldable pub set_with_ttl : S → Texto → A → ℤ → S × Bool
  set_with_ttl s key value ttl = elim (j.marshal value) [
    | none ↦ (s, false)
    | some data_ ↦ r.set s key data_ ttl
  ]

  -- What a stored value reads as, where the JSON of the value and the client give back what they were given.
  get-set_with_ttl :
      (s : S) (key : Texto) (value : A) (ttl : ℤ) (texto : Texto)
      → j.marshal value ≡ some texto
      → j.unmarshal texto ≡ some value
      → r.get (r.set s key texto ttl).0 key ≡ valor texto
      → get (set_with_ttl s key value ttl).0 key ≡ encontrado value
  unfolding get set_with_ttl
  get-set_with_ttl s key value ttl texto m u g = rw (set_with_ttl, m, g, u) refl

-- `Delete`, `DeletePattern`, `Exists`.
module _ {S : Type 0} (r : Redis S) where
  unfoldable pub delete_ : S → Texto → S × Bool
  delete_ s key = r.del s (key ∷ [])

  abbrev apagar_chaves : S → List Texto → S × Bool
  apagar_chaves s [] = (s, true)
  apagar_chaves s (k ∷ ks) = r.del s (k ∷ ks)

  unfoldable pub delete_pattern : S → Texto → S × Bool
  delete_pattern s pattern = elim (r.keys s pattern) [
    | none ↦ (s, false)
    | some ks ↦ apagar_chaves s ks
  ]

  unfoldable pub exists_key : S → Texto → Option Bool
  exists_key s key = elim (r.exists_ s key) [ none ↦ none | some n ↦ some (ltb 0 n) ]

-- ===== src/Mapa.antt =====
-- Go maps as association lists. The order of the list is one order in which `range` may visit the
-- map; nothing here fixes it, so what is proved of every list holds for every such order.
pub mod Laws
use mathlib.Core.Logic.{ite}
use deelp_pkg.Prelude.{Bool, Option, none, some, List, [], ◌∷◌, ◌≡◌, if◌then◌else◌}

abbrev pub Mapa {ℓ} : Type ℓ → Type ℓ → Type ℓ
Mapa K V = List (K × V)

module _ {ℓ} {K : Type ℓ} {V : Type ℓ} (dec : Discrete K) where
  -- `v, ok := m[k]`
  unfoldable pub lookup : K → Mapa K V → Option V
  lookup k [] = none
  lookup k ((j, v) ∷ m) = ite (dec j k) (some v) (lookup k m)

  -- `delete(m, k)`
  unfoldable pub remove : K → Mapa K V → Mapa K V
  remove k [] = []
  remove k ((j, v) ∷ m) = let rest = remove k m in ite (dec j k) rest ((j, v) ∷ rest)

  -- `m[k] = v`
  unfoldable pub put : K → V → Mapa K V → Mapa K V
  put k v [] = (k, v) ∷ []
  put k v ((j, w) ∷ m) = let rest = put k v m in ite (dec j k) ((k, v) ∷ m) ((j, w) ∷ rest)

  -- A map holds a key once.
  abbrev pub UniqueKeys : Mapa K V → Type ℓ
  UniqueKeys [] = Unit
  UniqueKeys ((k, v) ∷ m) = (lookup k m ≡ none) × UniqueKeys m

-- `for k, v := range m { if !test(k, v) { delete(m, k) } }`
unfoldable pub retain {ℓ} : {K : Type ℓ} {V : Type ℓ} → (K → V → Bool) → Mapa K V → Mapa K V
retain test [] = []
retain test ((k, v) ∷ m) = let rest = retain test m in if test k v then (k, v) ∷ rest else rest

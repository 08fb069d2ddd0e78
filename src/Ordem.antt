-- ===== src/Ordem.antt =====
-- Go's order on strings and the sorts of the package `sort` by a string key. Valid UTF-8 orders as its
-- code points do. `sort.SliceStable` has one result; `sort.Slice` and `sort.Strings` are called on
-- values of which those with equal keys are written the same.
pub mod Laws
use deelp_pkg.Texto.{Texto}
use deelp_pkg.Prelude.{[], ◌∷◌, true, false, ◌==◌, Bool, List, if◌then◌else◌, ltb}

-- `a < b` on strings.
unfoldable pub texto_lt : Texto → Texto → Bool
texto_lt [] [] = false
texto_lt [] (b ∷ bs) = true
texto_lt (a ∷ as_) [] = false
texto_lt (a ∷ as_) (b ∷ bs) =
    let resto = texto_lt as_ bs in if ltb a b then true else if a == b then resto else false

module _ {ℓ} {A : Type ℓ} (chave : A → Texto) where
  -- Before the first element whose key is not smaller.
  unfoldable pub inserir : A → List A → List A
  inserir x [] = x ∷ []
  inserir x (y ∷ ys) =
      let resto = inserir x ys in if texto_lt (chave y) (chave x) then y ∷ resto else x ∷ y ∷ ys

  unfoldable pub ordenar : List A → List A
  unfolding inserir
  ordenar [] = []
  ordenar (x ∷ xs) = inserir x (ordenar xs)

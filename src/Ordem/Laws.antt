-- ===== src/Ordem/Laws.antt =====
-- The sort by a key: a rearrangement, in order, that leaves equal keys in their order.
use mathlib.Core.List.{Memᴰ, Permᴰ}
use mathlib.Core.List.Permᴰ
use deelp_pkg.Texto.{Texto}
use deelp_pkg.Ordem.{texto_lt, inserir, ordenar}
use deelp_pkg.Prelude.{[], ◌∷◌, true, false, inl, inr, refl, List, ◌≡◌, All, Bool-cases, arith, ◌∙◌}

pub texto_lt-asymm : (a b : Texto) → texto_lt a b ≡ true → texto_lt b a ≡ false
unfolding texto_lt
texto_lt-asymm [] [] h = refl
texto_lt-asymm [] (b ∷ bs) h = refl
texto_lt-asymm (a ∷ as_) [] h = absurd (ground arith)
texto_lt-asymm (a ∷ as_) (b ∷ bs) h = ground (arith, texto_lt-asymm as_ bs)

-- `b ≤ a` is transitive.
pub texto_lt-le_trans :
    (a b c : Texto) → texto_lt b a ≡ false → texto_lt c b ≡ false → texto_lt c a ≡ false
unfolding texto_lt
texto_lt-le_trans a [] [] h k = h
texto_lt-le_trans a (b ∷ bs) [] h k = absurd (ground arith)
texto_lt-le_trans a [] (c ∷ cs) h k = ground arith
texto_lt-le_trans [] (b ∷ bs) (c ∷ cs) h k = refl
texto_lt-le_trans (a ∷ as_) (b ∷ bs) (c ∷ cs) h k = ground (arith, texto_lt-le_trans as_ bs cs)

module _ {A : Type 0} (chave : A → Texto) where
  abbrev pub NaoDepois : A → A → Type 0
  NaoDepois x y = texto_lt (chave y) (chave x) ≡ false

  -- Every element before every later one, by the key.
  unfoldable pub IsOrdenada : List A → Type 0
  IsOrdenada [] = Unit
  IsOrdenada (x ∷ xs) = All (NaoDepois x) xs × IsOrdenada xs

  inserir-All : (P : A → Type 0) (x : A) (xs : List A) → P x → All P xs → All P (inserir chave x xs)
  unfolding inserir
  inserir-All P x [] p h = (p, tt)
  inserir-All P x (y ∷ ys) p (q, h) = elim (Bool-cases (texto_lt (chave y) (chave x))) [
    | inl e ↦ rw e (q, inserir-All P x ys p h)
    | inr e ↦ rw e (p, (q, h))
  ]

  inserir-IsOrdenada : (x : A) (xs : List A) → IsOrdenada xs → IsOrdenada (inserir chave x xs)
  unfolding inserir IsOrdenada
  inserir-IsOrdenada x [] h = (tt, tt)
  inserir-IsOrdenada x (y ∷ ys) (a, h) = elim (Bool-cases (texto_lt (chave y) (chave x))) [
    | inl e ↦ rw e (
      inserir-All (NaoDepois y) x ys (texto_lt-asymm (chave y) (chave x) e) a,
      inserir-IsOrdenada x ys h,
    )
    | inr e ↦ rw e ((e, abaixo ys a e), (a, h))
  ]
    where
      abaixo :
          (zs : List A)
          → All (NaoDepois y) zs
          → texto_lt (chave y) (chave x) ≡ false
          → All (NaoDepois x) zs
      abaixo [] b e = tt
      abaixo (z ∷ zs) (b, c) e =
          (texto_lt-le_trans (chave x) (chave y) (chave z) e b, abaixo zs c e)

  pub ordenar-IsOrdenada : (xs : List A) → IsOrdenada (ordenar chave xs)
  unfolding ordenar IsOrdenada
  ordenar-IsOrdenada [] = tt
  ordenar-IsOrdenada (x ∷ xs) = inserir-IsOrdenada x (ordenar chave xs) (ordenar-IsOrdenada xs)

  inserir-Permᴰ : (x : A) (xs : List A) → Permᴰ (inserir chave x xs) (x ∷ xs)
  unfolding inserir
  inserir-Permᴰ x [] = Permᴰ.cons refl Permᴰ.nil
  inserir-Permᴰ x (y ∷ ys) = elim (Bool-cases (texto_lt (chave y) (chave x))) [
    | inl e ↦ rw e (Permᴰ.trans (Permᴰ.cons refl (inserir-Permᴰ x ys)) (Permᴰ.swap refl refl))
    | inr e ↦ rw e (Permᴰ.refl (x ∷ y ∷ ys))
  ]

  pub ordenar-Permᴰ : (xs : List A) → Permᴰ (ordenar chave xs) xs
  unfolding ordenar
  ordenar-Permᴰ [] = Permᴰ.nil
  ordenar-Permᴰ (x ∷ xs) =
      Permᴰ.trans (inserir-Permᴰ x (ordenar chave xs)) (Permᴰ.cons refl (ordenar-Permᴰ xs))

pub Memᴰ_of_Permᴰ : {A : Type 0} {a : A} {xs ys : List A} → Permᴰ xs ys → Memᴰ a xs → Memᴰ a ys
Memᴰ_of_Permᴰ Permᴰ.nil m = m
Memᴰ_of_Permᴰ (Permᴰ.cons e p) (Memᴰ.head f) = Memᴰ.head (f ∙ e)
Memᴰ_of_Permᴰ (Permᴰ.cons e p) (Memᴰ.tail m) = Memᴰ.tail (Memᴰ_of_Permᴰ p m)
Memᴰ_of_Permᴰ (Permᴰ.swap e f) (Memᴰ.head g) = Memᴰ.tail (Memᴰ.head (g ∙ e))
Memᴰ_of_Permᴰ (Permᴰ.swap e f) (Memᴰ.tail (Memᴰ.head g)) = Memᴰ.head (g ∙ f)
Memᴰ_of_Permᴰ (Permᴰ.swap e f) (Memᴰ.tail (Memᴰ.tail m)) = Memᴰ.tail (Memᴰ.tail m)
Memᴰ_of_Permᴰ (Permᴰ.trans p q) m = Memᴰ_of_Permᴰ q (Memᴰ_of_Permᴰ p m)

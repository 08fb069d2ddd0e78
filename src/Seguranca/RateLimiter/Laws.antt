-- ===== src/Seguranca/RateLimiter/Laws.antt =====
-- The limiter in memory against a sliding window: which calls it allows.
use deelp_pkg.Seguranca.RateLimiter.{
  LimiterMemoria, new_limiter_memoria, na_janela, allow, cleanup, ultimo_antes,
}
use deelp_pkg.Prelude.{
  [], ◌∷◌, pos, ℕ, ℤ, List, Bool, if◌then◌else◌, ◌≤◌, not, ◌++◌, leb_ℤ, length, keep, refl, All,
  ◌≡◌, arith, true, inl, inr, All-append, Bool-cases,
}
use deelp_pkg.Texto.{Texto}

-- A call: a visit of an address, or a sweep.
pub data Chamada : Type 0 where
  visita : Texto → Chamada
  varredura : Chamada

-- Fewer than the limit of these instants lie in the window that ends now.
abbrev pub cabe : ℤ → ℕ → ℕ → List ℕ → Bool
cabe limite janela now ts = not (leb_ℤ limite (pos (length (keep (na_janela now janela) ts))))

-- The calls, the latest first, are in the order of their instants, none of them after `now`.
abbrev pub IsOrdered : ℕ → List (ℕ × Chamada) → Type 0
IsOrdered now [] = Unit
IsOrdered now ((t, c) ∷ cs) = (t ≤ now) × IsOrdered t cs

module _ (dec : Discrete Texto) (limite : ℤ) (janela : ℕ) where
  -- The limiter after the calls.
  unfoldable pub depois_de : List (ℕ × Chamada) → LimiterMemoria
  depois_de [] = new_limiter_memoria limite janela
  depois_de ((t, visita ip) ∷ cs) = (allow dec t (depois_de cs) ip).0
  depois_de ((t, varredura) ∷ cs) = cleanup t (depois_de cs)

  -- The reference: all the instants at which the address was allowed, nothing ever dropped.
  unfoldable pub registro : Texto → List (ℕ × Chamada) → List ℕ
  registro ip [] = []
  registro ip ((t, varredura) ∷ cs) = registro ip cs
  registro ip ((t, visita q) ∷ cs) =
      let antes = registro ip cs in
      elim (dec q ip) [
        | yes _ ↦ if cabe limite janela t antes then antes ++ t ∷ [] else antes
        | no _ ↦ antes
      ]

module _ (janela : ℕ) where
  pub keep-keep :
      (t n : ℕ) (ts : List ℕ)
      → t ≤ n
      → keep (na_janela n janela) (keep (na_janela t janela) ts) ≡ keep (na_janela n janela) ts
  keep-keep t n [] h = refl
  keep-keep t n (s ∷ ts) h = ground (arith, keep-keep t n ts h)

  pub keep-append :
      (n : ℕ) (ts us : List ℕ)
      → keep (na_janela n janela) (ts ++ us)
        ≡ keep (na_janela n janela) ts ++ keep (na_janela n janela) us
  keep-append n [] us = refl
  keep-append n (t ∷ ts) us = ground (arith, keep-append n ts us)

  -- The instants are in order, none after `now`.
  unfoldable pub IsSorted : ℕ → List ℕ → Type 0
  IsSorted now [] = Unit
  IsSorted now (t ∷ ts) = All (λ s. t ≤ s) ts × (t ≤ now) × IsSorted now ts

  All-keep :
      (P : ℕ → Type 0) (n : ℕ) (ts : List ℕ) → All P ts → All P (keep (na_janela n janela) ts)
  All-keep P n [] a = tt
  All-keep P n (t ∷ ts) (a, as_) = elim (Bool-cases (na_janela n janela t)) [
    | inl e ↦ rw e (a, All-keep P n ts as_)
    | inr e ↦ rw e (All-keep P n ts as_)
  ]

  pub IsSorted-keep :
      (now n : ℕ) (ts : List ℕ) → IsSorted now ts → IsSorted now (keep (na_janela n janela) ts)
  unfolding IsSorted
  IsSorted-keep now n [] h = tt
  IsSorted-keep now n (t ∷ ts) (a, b, h) = elim (Bool-cases (na_janela n janela t)) [
    | inl e ↦ rw e (All-keep (λ s. t ≤ s) n ts a, b, IsSorted-keep now n ts h)
    | inr e ↦ rw e (IsSorted-keep now n ts h)
  ]

  pub IsSorted-later : (t n : ℕ) (ts : List ℕ) → t ≤ n → IsSorted t ts → IsSorted n ts
  unfolding IsSorted
  IsSorted-later t n [] h s = tt
  IsSorted-later t n (u ∷ ts) h (a, b, s) = (a, omega arith, IsSorted-later t n ts h s)

  pub IsSorted-snoc : (now : ℕ) (ts : List ℕ) → IsSorted now ts → IsSorted now (ts ++ now ∷ [])
  unfolding IsSorted
  IsSorted-snoc now [] h = (tt, omega arith, tt)
  IsSorted-snoc now (t ∷ ts) (a, b, h) =
      (All-append (λ s. t ≤ s) ts (now ∷ []) a (b, tt), b, IsSorted-snoc now ts h)

  -- What a sweep drops holds nothing of a window that ends now or later.
  pub ultimo_antes-keep :
      (now n : ℕ) (ts : List ℕ)
      → now ≤ n
      → IsSorted now ts
      → ultimo_antes now janela ts ≡ true
      → keep (na_janela n janela) ts ≡ []
  unfolding IsSorted
  ultimo_antes-keep now n [] h s e = refl
  ultimo_antes-keep now n (t ∷ []) h s e = ground arith
  ultimo_antes-keep now n (t ∷ u ∷ ts) h (a, b, s) e =
      ground (arith, ultimo_antes-keep now n (u ∷ ts) h s e)

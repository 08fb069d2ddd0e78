-- ===== src/Seguranca/RateLimiter/Window.antt =====
-- The list that the limiter in memory keeps, against all the instants that it allowed.
use deelp_pkg.Seguranca.RateLimiter.{LimiterMemoria, historico, na_janela, is_empty, ultimo_antes}
use deelp_pkg.Seguranca.RateLimiter.Laws.{
  keep-keep, keep-append, IsSorted, IsSorted-keep, IsSorted-later, IsSorted-snoc, ultimo_antes-keep,
}
use deelp_pkg.Prelude.{
  ◌||◌, ℤ, ℕ, List, ◌≤◌, keep, ◌≢◌, not, ◌≡◌, arith, [], ◌∷◌, true, none, some, inl, inr, refl,
  Bool, Option, ◌++◌, ◌∙◌, Bool-cases, Option-cases, if◌then◌else◌, sym,
}
use deelp_pkg.Texto.{Texto}
use deelp_pkg.Mapa.{Mapa, UniqueKeys, lookup, retain, put}
use deelp_pkg.Mapa.Laws.{
  retain-UniqueKeys, put-UniqueKeys, lookup-put_self, lookup-put_ne, lookup-retain-none,
  lookup-retain,
}

vazio_ou_antes :
    (janela t n : ℕ) (hist : List ℕ)
    → t ≤ n
    → IsSorted janela t hist
    → (is_empty hist || ultimo_antes t janela hist) ≡ true
    → keep (na_janela n janela) hist ≡ []
vazio_ou_antes janela t n [] l s e = refl
vazio_ou_antes janela t n (x ∷ xs) l s e = ultimo_antes-keep janela t n (x ∷ xs) l s e

sobra : (List ℕ → Bool) → Option (List ℕ) → Option (List ℕ)
sobra p none = none
sobra p (some hist) = if p hist then some hist else none

lookup-retain-sobra :
    (dec : Discrete Texto) (p : Texto → List ℕ → Bool) (q : Texto) (v : Mapa Texto (List ℕ))
    → UniqueKeys dec v
    → lookup dec q (retain p v) ≡ sobra (p q) (lookup dec q v)
unfolding sobra
lookup-retain-sobra dec p q v u = elim (Option-cases (lookup dec q v)) [
  | inl e ↦ rw e (lookup-retain-none dec p q v e)
  | inr (w, e) ↦ rw e (lookup-retain dec p q w v u e)
]

module _ (dec : Discrete Texto) (limite : ℤ) (janela : ℕ) where
  -- For an address, the list that is kept is in order and has in every window from `now` on the same
  -- instants as the reference.
  unfoldable pub Segue : ℕ → List ℕ → List ℕ → Type 0
  Segue now hist ref =
      IsSorted janela now hist
      × ((n : ℕ) → now ≤ n → keep (na_janela n janela) hist ≡ keep (na_janela n janela) ref)

  unfoldable pub Inv : ℕ → Mapa Texto (List ℕ) → (Texto → List ℕ) → Type 0
  Inv now v ref =
      UniqueKeys dec v × ((ip : Texto) → Segue now (historico (lookup dec ip v)) (ref ip))

  pub put-Inv :
      (now t : ℕ) (v : Mapa Texto (List ℕ)) (ref ref' : Texto → List ℕ) (ip : Texto) (w : List ℕ)
      → Inv now v ref
      → now ≤ t
      → Segue t w (ref' ip)
      → ((q : Texto) → q ≢ ip → ref' q ≡ ref q)
      → Inv t (put dec ip w v) ref'
  unfolding Inv Segue
  put-Inv now t v ref ref' ip w (u, h) l s e = (
    put-UniqueKeys dec ip w v u,
    λ q. elim (dec q ip) [
      | yes p ↦ rw (p, lookup-put_self dec ip w v) s
      | no n ↦
          rw (lookup-put_ne dec ip q w v n, e q n)
            (IsSorted-later janela now t _ l (h q).0, λ m k. (h q).1 m (omega arith))
    ],
  )

  cleanup-Segue :
      (now t : ℕ) (ref : List ℕ) (o : Option (List ℕ))
      → Segue now (historico o) ref
      → now ≤ t
      → Segue t
          (historico (sobra (λ hist. not (is_empty hist || ultimo_antes t janela hist)) o))
          ref
  unfolding Segue IsSorted sobra
  cleanup-Segue now t ref none (s, h) l = (tt, λ n k. h n (omega arith))
  cleanup-Segue now t ref (some hist) (s, h) l =
      elim (Bool-cases (is_empty hist || ultimo_antes t janela hist)) [
        | inr e ↦ rw e (IsSorted-later janela now t hist l s, λ n k. h n (omega arith))
        | inl e ↦ rw e (
          tt,
          λ n k.
              sym (vazio_ou_antes janela t n hist k (IsSorted-later janela now t hist l s) e)
              ∙ h n (omega arith),
        )
      ]

  pub cleanup-Inv :
      (now t : ℕ) (v : Mapa Texto (List ℕ)) (ref : Texto → List ℕ)
      → Inv now v ref
      → now ≤ t
      → Inv t (retain (λ ip hist. not (is_empty hist || ultimo_antes t janela hist)) v) ref
  unfolding Inv
  cleanup-Inv now t v ref (u, h) l = (
    retain-UniqueKeys dec _ v u,
    λ q.
        rw (lookup-retain-sobra dec _ q v u) (cleanup-Segue now t (ref q) (lookup dec q v) (h q) l),
  )

  -- The limiter with these visits.
  unfoldable pub com_visits : Mapa Texto (List ℕ) → LimiterMemoria
  com_visits v = record { visits = v; limite = limite; janela = janela }

  pub novo-Segue :
      (now t : ℕ) (hist ref : List ℕ)
      → Segue now hist ref
      → now ≤ t
      → Segue t (keep (na_janela t janela) hist) ref
  unfolding Segue
  novo-Segue now t hist ref (s, h) l = (
    IsSorted-keep janela t t hist (IsSorted-later janela now t hist l s),
    λ n k. keep-keep janela t n hist k ∙ h n (omega arith),
  )

  pub mais-Segue :
      (t : ℕ) (hist ref : List ℕ) → Segue t hist ref → Segue t (hist ++ t ∷ []) (ref ++ t ∷ [])
  unfolding Segue
  mais-Segue t hist ref (s, h) = (
    IsSorted-snoc janela t hist s,
    λ n k. rw (keep-append janela n hist (t ∷ []), keep-append janela n ref (t ∷ []), h n k) refl,
  )

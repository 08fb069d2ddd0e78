-- ===== src/Auth/Tenant/Laws.antt =====
-- `TenantGuard` of auth/middleware.go: which company a path names, and who passes.
use deelp_pkg.Texto.Laws.{vazio_iff, eq_texto→eq}
use deelp_pkg.Auth.Middleware.Laws.{IsDenied, IsAutenticado, autenticacao-cases}
use deelp_pkg.Prelude.{
  [], ◌∷◌, true, some, inl, inr, refl, ◌&&◌, ◌||◌, ◌==◌, List, ◌≡◌, ℕ, ◌⊎◌, length, all, ◌≢◌,
  Bool-cases, arith, false, none, ◌+◌, sym, ◌∙◌, Option, none_ne_some, some_inj,
}
use deelp_pkg.Auth.Tenant.{
  empresa_em, uuid_from, tenant_guard, empresa_do_request, parece_uuid, is_hex,
  is_prefixo_de_empresa, comparar_empresa,
}
use deelp_pkg.Texto.{Unicode, Texto, byte_len, rune_len, codes, equal_fold, vazio}
use deelp_pkg.Http.{Handler, Request, served, Reply, denied}
use deelp_pkg.Auth.Claims.{Claims, claims_do_contexto, com_claims}
use deelp_pkg.Auth.Token.{Jwt}
use deelp_pkg.Auth.Middleware.{Config, autenticacao}

-- Two parts that stand side by side.
pub data Adjacent : List Texto → Texto → Texto → Type 0 where
  at_head : (a b : Texto) (rest : List Texto) → Adjacent (a ∷ b ∷ rest) a b
  further :
      {parts : List Texto} {a b : Texto} (p : Texto) → Adjacent parts a b → Adjacent (p ∷ parts) a b

uuid_from-shape :
    (i : ℕ) (s : Texto)
    → uuid_from i s ≡ true
    → (byte_len s ≡ length s) × (all (λ c. c == b'-' || is_hex c) s ≡ true)
unfolding uuid_from byte_len rune_len
uuid_from-shape i [] h = (refl, refl)
uuid_from-shape i (c ∷ s) h =
    let ih = uuid_from-shape (i + 1) s (ground arith) in
    (ground (arith, ih.0), ground (arith, ih.1))

empresa_em-Adjacent :
    (partes : List Texto)
    → (empresa_em partes ≡ [])
      ⊎ ((prefixo : Texto) × Adjacent partes prefixo (empresa_em partes)
          × ((prefixo ≡ codes "empresas") ⊎ (prefixo ≡ codes "empresa"))
          × (parece_uuid (empresa_em partes) ≡ true))
unfolding empresa_em
empresa_em-Adjacent [] = inl refl
empresa_em-Adjacent (p ∷ []) = inl refl
empresa_em-Adjacent (p ∷ q ∷ partes) =
    elim (Bool-cases (is_prefixo_de_empresa p && parece_uuid q)) [
      | inl e ↦ rw e (
          inr (
            p,
            at_head p q partes,
            ground (arith, eq_texto→eq p (codes "empresas"), eq_texto→eq p (codes "empresa")),
            ground arith,
          ))
      | inr n ↦ rw n (elim (empresa_em-Adjacent (q ∷ partes)) [
        | inl z ↦ inl z
        | inr (a, w, k, v) ↦ inr (a, further p w, k, v)
      ])
    ]

-- The claims, if any, are of the company `p`.
abbrev pub IsDaEmpresa : Unicode → Option Claims → Texto → Type 0
IsDaEmpresa u o p =
    (c : Claims) × (o ≡ some c) × (c.empresa_id ≢ []) × (equal_fold u c.empresa_id p ≡ true)

module _ (u : Unicode) (next : Handler) (r : Request) where
  comparar_empresa-cases :
      (p : Texto) (o : Option Claims)
      → ((comparar_empresa u next r p o ≡ next r) × IsDaEmpresa u o p)
        ⊎ (IsDenied (comparar_empresa u next r p o) × (¬ IsDaEmpresa u o p))
  comparar_empresa-cases p none = inr ((omega arith, refl), λ (c, e, _, _). none_ne_some e)
  comparar_empresa-cases p (some c) = elim (Bool-cases (vazio c.empresa_id)) [
    | inl a ↦
        inr (rw a (omega arith, refl), λ (c', e, f, g). ground (arith, f, vazio_iff c'.empresa_id))
    | inr a ↦ elim (Bool-cases (equal_fold u c.empresa_id p)) [
      | inl b ↦ inl (rw (a, b) refl, (c, refl, ground (arith, vazio_iff c.empresa_id), b))
      | inr b ↦ inr (rw (a, b) (omega arith, refl), λ (c', e, f, g). ground arith)
    ]
  ]

  -- `TenantGuard` passes the request on unchanged exactly if it names no company, or the company of the
  -- claims in its context; else it answers with an error status.
  pub tenant_guard-cases :
      ((tenant_guard u next r ≡ next r)
        × ((empresa_do_request r ≡ [])
            ⊎ IsDaEmpresa u (claims_do_contexto r.contexto) (empresa_do_request r)))
      ⊎ (IsDenied (tenant_guard u next r)
          × (empresa_do_request r ≢ [])
          × (¬ IsDaEmpresa u (claims_do_contexto r.contexto) (empresa_do_request r)))
  unfolding tenant_guard
  tenant_guard-cases = elim (Bool-cases (vazio (empresa_do_request r))) [
    | inl e ↦ inl (rw e refl, inl ((vazio_iff _).0 e))
    | inr n ↦ elim (comparar_empresa-cases (empresa_do_request r) (claims_do_contexto r.contexto)) [
      | inl (e, v) ↦ inl (rw n e, inr v)
      | inr (d, v) ↦ inr (rw n d, nomeada n, v)
    ]
  ]
    where
      nomeada : vazio (empresa_do_request r) ≡ false → empresa_do_request r ≢ []
      nomeada n e = ground (arith, vazio_iff (empresa_do_request r))

served-injective : {a b : Request} → served a ≡ served b → a ≡ b
served-injective e = cc

IsDenied-not_served : (reply : Reply) (r : Request) → IsDenied reply → reply ≡ served r → ⊥
IsDenied-not_served (served q) r d e = d
IsDenied-not_served (denied s m k) r d e = cc

-- Behind `Autenticacao` and `TenantGuard` a request that names a company reaches the handler only with
-- a valid token whose company is the one named.
pub isolamento :
    (u : Unicode) (jwt : Jwt) (agora : ℕ) (cfg : Config) (r servido : Request)
    → autenticacao u jwt agora cfg (tenant_guard u served) r ≡ served servido
    → empresa_do_request r ≢ []
    → (c : Claims) × IsAutenticado u jwt agora cfg r c
      × (servido ≡ record r { contexto = com_claims r.contexto c })
      × (c.empresa_id ≢ [])
      × (equal_fold u c.empresa_id (empresa_do_request r) ≡ true)
unfolding com_claims empresa_do_request claims_do_contexto
isolamento u jwt agora cfg r servido h n =
    elim (autenticacao-cases u jwt agora cfg (tenant_guard u served) r) [
      | inl d ↦ absurd (IsDenied-not_served _ servido d h)
      | inr (c, v, e) ↦
          let passado = record r { contexto = com_claims r.contexto c } in
          elim (tenant_guard-cases u served passado) [
            | inr (d, _, _) ↦ absurd (IsDenied-not_served _ servido d (sym e ∙ h))
            | inl (f, inl vazia) ↦ absurd (n vazia)
            | inl (f, inr (c', g, x, y)) ↦
                (c, v, served-injective (sym h ∙ e ∙ f), rw (some_inj g) x, rw (some_inj g) y)
          ]
    ]

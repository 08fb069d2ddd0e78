-- ===== src/Internalauth.antt =====
-- internalauth/internalauth.go: the key of the calls between services.
use deelp_pkg.Auth.Permissao.Laws.{Decides}
use deelp_pkg.Texto.{Texto, vazio, eq_texto, trim_space}
use deelp_pkg.Http.{Request, Middleware, denied, Handler}
use deelp_pkg.Http.Status
use deelp_pkg.Prelude.{
  [], false, none, some, inl, inr, refl, Option, Bool, if◌then◌else◌, ◌≡◌, arith, not, ◌≢◌,
  none_ne_some, Bool-cases, some_inj, sym, ◌∙◌,
}
use deelp_pkg.Texto.Laws.{vazio_iff, eq_texto→eq, eq→eq_texto}

-- `Verificador`.
pub record Verificador : Type 0 where
  pub chave : Texto

-- `NewVerificador`.
unfoldable pub new_verificador : Texto → Verificador
new_verificador chave = record { chave = trim_space chave }

-- `Valida`; `none` is the nil of a pointer. A header or a key is equal to itself only.
unfoldable pub valida : Option Verificador → Option Request → Bool
valida none r = false
valida (some v) none = false
valida (some v) (some r) =
    let enviada = r.header "X-Internal-Key" in
    if vazio v.chave then false else if vazio enviada then false else eq_texto enviada v.chave

-- `Middleware`.
unfoldable pub internal_middleware : Option Verificador → Middleware
internal_middleware v next r =
    if not (valida v (some r))
    then denied Status.forbidden "Acesso interno não autorizado" []
    else next r

-- A verifier is there whose key is not empty and is the header of the request.
abbrev pub IsInterno : Option Verificador → Request → Type 0
IsInterno o r =
    (v : Verificador) × (o ≡ some v) × (v.chave ≢ []) × (r.header "X-Internal-Key" ≡ v.chave)

-- The middleware of the internal routes calls the handler exactly if there is a verifier, its key is not
-- empty, and the header equals it; else it answers with an error status.
internal_middleware-decides :
    (v : Option Verificador) (next : Handler) (r : Request)
    → Decides (internal_middleware v next r) (next r) (IsInterno v r)
unfolding internal_middleware valida
internal_middleware-decides none next r = inr ((omega arith, refl), λ (v, e, _, _). none_ne_some e)
internal_middleware-decides (some v) next r = elim (Bool-cases (vazio v.chave)) [
  | inl a ↦ inr (
    rw a (omega arith, refl),
    λ (w, e, n, _). n (ground (arith, some_inj e, vazio_iff w.chave, vazio_iff v.chave)),
  )
  | inr a ↦ elim (Bool-cases (vazio (r.header "X-Internal-Key"))) [
    | inl b ↦ inr (
      rw (a, b) (omega arith, refl),
      λ (w, e, n, h). n (sym h ∙ (vazio_iff (r.header "X-Internal-Key")).0 b),
    )
    | inr b ↦ elim (Bool-cases (eq_texto (r.header "X-Internal-Key") v.chave)) [
      | inl d ↦
          inl (
            rw (a, b, d) refl,
            (v, refl, ground (arith, vazio_iff v.chave), eq_texto→eq _ v.chave d),
          )
      | inr d ↦ inr (
        rw (a, b, d) (omega arith, refl),
        λ (w, e, n, h).
            ground (arith, some_inj e, eq→eq_texto (r.header "X-Internal-Key") w.chave h),
      )
    ]
  ]
]

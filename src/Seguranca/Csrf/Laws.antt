-- ===== src/Seguranca/Csrf/Laws.antt =====
-- The guard of seguranca/csrf.go: when it lets a request through.
use deelp_pkg.Auth.Permissao.Laws.{Decides}
use deelp_pkg.Seguranca.Csrf.{csrf_guard, CsrfConfig, metodos, ignora, com_cookie}
use deelp_pkg.Prelude.{
  [], true, false, none, some, inl, inr, refl, Bool-cases, Option, any, ◌≡◌, arith, ◌≢◌, ◌⊎◌,
  none_ne_some, some_inj, sym, ◌∙◌,
}
use deelp_pkg.Http.{Handler, Request}
use deelp_pkg.Texto.{Unicode, Texto, codes, eq_texto, trim_space, vazio}
use deelp_pkg.Texto.Laws.{vazio_iff, eq_texto→eq, eq→eq_texto}

-- The cookie is there and not empty, and the header without its outer spaces equals it.
abbrev pub DoubleSubmit : Request → Type 0
DoubleSubmit r =
    (cookie : Texto) × (r.cookie (codes "deelp_csrf") ≡ some cookie)
    × (cookie ≢ [])
    × (trim_space (r.header "X-CSRF-Token") ≡ cookie)

-- The method is not protected, or the configuration exempts the request, or it carries the token.
abbrev pub IsLiberado : Unicode → CsrfConfig → Request → Type 0
IsLiberado u cfg r =
    (any (λ m. eq_texto m r.method) (metodos u cfg.metodos_protegidos) ≡ false)
    ⊎ ((ignora cfg.ignorar_se r ≡ true) ⊎ DoubleSubmit r)

com_cookie-decides :
    (next : Handler) (r : Request) (o : Option Texto)
    → Decides (com_cookie next r o) (next r) (
        (cookie : Texto) × (o ≡ some cookie)
        × (cookie ≢ [])
        × (trim_space (r.header "X-CSRF-Token") ≡ cookie))
com_cookie-decides next r none = inr ((omega arith, refl), λ (c, e, _, _). none_ne_some e)
com_cookie-decides next r (some cookie) = elim (Bool-cases (vazio cookie)) [
  | inl a ↦
      inr (rw a (omega arith, refl), λ (c, e, n, _). ground (arith, some_inj e, vazio_iff cookie))
  | inr a ↦ elim (Bool-cases (vazio (trim_space (r.header "X-CSRF-Token")))) [
    | inl b ↦ inr (
      rw (a, b) (omega arith, refl),
      λ (c, e, n, h). n (sym h ∙ (vazio_iff (trim_space (r.header "X-CSRF-Token"))).0 b),
    )
    | inr b ↦ elim (Bool-cases (eq_texto (trim_space (r.header "X-CSRF-Token")) cookie)) [
      | inl d ↦ inl (
        rw (a, b, d) refl,
        (cookie, refl, ground (arith, vazio_iff cookie), eq_texto→eq _ cookie d),
      )
      | inr d ↦ inr (
        rw (a, b, d) (omega arith, refl),
        λ (c, e, n, h). ground (arith, eq→eq_texto _ cookie (h ∙ sym (some_inj e))),
      )
    ]
  ]
]

-- `CSRFGuard` calls the handler exactly if the method is not a protected one, or the configuration exempts
-- the request, or its cookie is not empty and the trimmed header equals it; else it answers with an error.
pub csrf_guard-decides :
    (u : Unicode) (cfg : CsrfConfig) (next : Handler) (r : Request)
    → Decides (csrf_guard u cfg next r) (next r) (IsLiberado u cfg r)
unfolding csrf_guard
csrf_guard-decides u cfg next r =
    elim (Bool-cases (any (λ m. eq_texto m r.method) (metodos u cfg.metodos_protegidos))) [
      | inr a ↦ inl (rw a refl, inl a)
      | inl a ↦ elim (Bool-cases (ignora cfg.ignorar_se r)) [
        | inl b ↦ inl (rw (a, b) refl, inr (inl b))
        | inr b ↦ elim (com_cookie-decides next r (r.cookie (codes "deelp_csrf"))) [
          | inl (e, p) ↦ inl (rw (a, b) e, inr (inr p))
          | inr (x, n) ↦ inr (
            rw (a, b) x,
            elim [
              | inl e ↦ ground (arith, e, a)
              | inr (inl e) ↦ ground (arith, e, b)
              | inr (inr p) ↦ n p
            ],
          )
        ]
      ]
    ]

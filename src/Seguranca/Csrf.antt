-- ===== src/Seguranca/Csrf.antt =====
-- seguranca/csrf.go: the guard against forged requests. Metrics are left out.
pub mod Laws
pub mod Token
use deelp_pkg.Texto.{
  Texto, Unicode, codes, vazio, eq_texto, trim_space, has_prefix, to_lower, to_upper,
}
use deelp_pkg.Http.{Request, Reply, Handler, Middleware, denied}
use deelp_pkg.Http.Status
use deelp_pkg.Prelude.{
  [], ◌∷◌, false, none, some, Bool, List, Option, String, if◌then◌else◌, map, not, any,
}

-- `CSRFConfig`; `ignorar_se` is `none` where the function is nil.
pub record CsrfConfig : Type 0 where
  pub metodos_protegidos : List Texto
  pub ignorar_se : Option (Request → Bool)

abbrev pub metodos_padrao : List Texto
metodos_padrao = codes "POST" ∷ codes "PUT" ∷ codes "PATCH" ∷ codes "DELETE" ∷ []

-- `metodos`, as the list of the map's keys.
abbrev pub metodos : Unicode → List Texto → List Texto
metodos u [] = metodos_padrao
metodos u (m ∷ ms) = map (to_upper u) (m ∷ ms)

abbrev pub ignora : Option (Request → Bool) → Request → Bool
ignora none r = false
ignora (some f) r = f r

-- `escreverFalhaCSRF`.
abbrev pub falha_csrf : String → Reply
falha_csrf mensagem = denied Status.forbidden mensagem []

-- The comparison of the header with the cookie, which is there and not empty.
abbrev pub comparar_csrf : Handler → Request → Texto → Reply
comparar_csrf next r cookie =
    let header = trim_space (r.header "X-CSRF-Token") in
    if vazio header
    then falha_csrf "CSRF header ausente"
    else if not (eq_texto header cookie)
    then falha_csrf "CSRF token divergente"
    else next r

abbrev pub com_cookie : Handler → Request → Option Texto → Reply
com_cookie next r none = falha_csrf "CSRF cookie ausente"
com_cookie next r (some cookie) =
    if vazio cookie then falha_csrf "CSRF cookie ausente" else comparar_csrf next r cookie

-- `CSRFGuard`.
unfoldable pub csrf_guard : Unicode → CsrfConfig → Middleware
csrf_guard u cfg next r =
    if not (any (λ m. eq_texto m r.method) (metodos u cfg.metodos_protegidos))
    then next r
    else if ignora cfg.ignorar_se r
    then next r
    else com_cookie next r (r.cookie (codes "deelp_csrf"))

-- `IgnorarCSRFSeAuthorizationBearer`.
unfoldable pub ignorar_csrf_se_authorization_bearer : Unicode → Request → Bool
ignorar_csrf_se_authorization_bearer u r =
    has_prefix (to_lower u (trim_space (r.header "Authorization"))) (codes "bearer ")

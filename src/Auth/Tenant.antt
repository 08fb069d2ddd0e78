-- ===== src/Auth/Tenant.antt =====
-- auth/middleware.go: `TenantGuard`, which compares the company of the path with that of the claims.
-- Metrics are left out.
pub mod Laws
use deelp_pkg.Texto.{
  Texto, Unicode, codes, vazio, eq_texto, byte_len, split, trim_slash, equal_fold, is_ascii_digit,
}
use deelp_pkg.Http.{Request, Reply, Handler, Middleware}
use deelp_pkg.Http.Status
use deelp_pkg.Auth.Claims.{Claims, claims_do_contexto}
use deelp_pkg.Auth.Middleware.{negar}
use deelp_pkg.Prelude.{
  [], ◌∷◌, true, false, none, some, ◌&&◌, ◌||◌, ◌==◌, Bool, List, Option, if◌then◌else◌, ℕ, leb,
  not, ◌+◌,
}

-- `pareceUUID`: 36 bytes, hyphens at four places, hexadecimal digits at the others.
abbrev pub is_hex : ℕ → Bool
is_hex c = is_ascii_digit c || leb b'a' c && leb c b'f' || leb b'A' c && leb c b'F'

abbrev pub is_hyphen_place : ℕ → Bool
is_hyphen_place i = i == 8 || i == 13 || i == 18 || i == 23

unfoldable pub uuid_from : ℕ → Texto → Bool
uuid_from i [] = true
uuid_from i (c ∷ s) =
    let rest = uuid_from (i + 1) s in
    if is_hyphen_place i then c == b'-' && rest else is_hex c && rest

unfoldable pub parece_uuid : Texto → Bool
unfolding uuid_from
parece_uuid s = if not (byte_len s == 36) then false else uuid_from 0 s

-- The loop of `extrairEmpresaIdDoPath` over the parts of the path.
abbrev pub is_prefixo_de_empresa : Texto → Bool
is_prefixo_de_empresa parte = eq_texto parte (codes "empresas") || eq_texto parte (codes "empresa")

unfoldable pub empresa_em : List Texto → Texto
unfolding parece_uuid
empresa_em [] = []
empresa_em (parte ∷ []) = []
empresa_em (parte ∷ seguinte ∷ partes) =
    let resto = empresa_em (seguinte ∷ partes) in
    if is_prefixo_de_empresa parte && parece_uuid seguinte then seguinte else resto

unfoldable pub extrair_empresa_id_do_path : Texto → Texto
unfolding empresa_em
extrair_empresa_id_do_path path = empresa_em (split b'/' (trim_slash path))

-- The company that a request names.
unfoldable pub empresa_do_request : Request → Texto
empresa_do_request r =
    let path_emp = r.path_value "empresaId" in
    if vazio path_emp then extrair_empresa_id_do_path r.path else path_emp

abbrev pub comparar_empresa : Unicode → Handler → Request → Texto → Option Claims → Reply
comparar_empresa u next r path_emp none = negar Status.unauthorized "Claims ausentes no contexto"
comparar_empresa u next r path_emp (some c) =
    if vazio c.empresa_id
    then negar Status.forbidden "Token sem vínculo de empresa. Selecione uma colaboração novamente."
    else if not (equal_fold u c.empresa_id path_emp)
    then negar Status.forbidden "Acesso negado: empresa solicitada não corresponde à sessão atual"
    else next r

-- `TenantGuard`.
unfoldable pub tenant_guard : Unicode → Middleware
unfolding claims_do_contexto
tenant_guard u next r =
    let path_emp = empresa_do_request r in
    if vazio path_emp
    then next r
    else comparar_empresa u next r path_emp (claims_do_contexto r.contexto)

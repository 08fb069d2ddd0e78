-- ===== src/Seguranca/Headers.antt =====
-- seguranca/headers.go: the security headers of every response.
use deelp_pkg.Texto.{Texto, codes, vazio}
use deelp_pkg.Auth.Mask.{itoa}
use deelp_pkg.Prelude.{
  [], ◌∷◌, String, none, some, suc, pos, negsuc, ◌&&◌, Bool, List, Option, if◌then◌else◌, ℤ, leb_ℤ,
  ◌++◌,
}

-- `HeadersSegurancaConfig`.
pub record HeadersSegurancaConfig : Type 0 where
  pub producao : Bool
  pub csp : Texto
  pub referrer_policy : Texto
  pub permissions_policy : Texto
  pub x_frame_options : Texto
  pub x_content_type_options : Texto
  pub hsts_max_age_segundos : ℤ
  pub hsts_include_sub_domain : Bool

abbrev ou : Texto → String → Texto
ou t padrao = if vazio t then codes padrao else t

abbrev um_ano_se_zero : ℤ → ℤ
um_ano_se_zero n = if leb_ℤ n (pos 0) && leb_ℤ (pos 0) n then pos 31536000 else n

-- `comDefaults`.
unfoldable pub com_defaults : HeadersSegurancaConfig → HeadersSegurancaConfig
com_defaults c = record c {
  csp = ou c.csp "default-src 'self'; frame-ancestors 'none'; base-uri 'self'";
  referrer_policy = ou c.referrer_policy "strict-origin-when-cross-origin";
  permissions_policy = ou c.permissions_policy "camera=(), microphone=(), geolocation=()";
  x_frame_options = ou c.x_frame_options "DENY";
  x_content_type_options = ou c.x_content_type_options "nosniff";
  hsts_max_age_segundos = um_ano_se_zero c.hsts_max_age_segundos;
}

-- `itoaSimples`; the least int of 64 bits, which is its own negative, is left out.
unfoldable pub itoa_simples : ℤ → Texto
itoa_simples (pos n) = itoa n
itoa_simples (negsuc n) = codes "-" ++ itoa (suc n)

-- The value of HSTS, none outside production.
unfoldable pub hsts : HeadersSegurancaConfig → Option Texto
hsts c =
    if c.producao
    then some (
        codes "max-age="
        ++ itoa_simples c.hsts_max_age_segundos
        ++ (if c.hsts_include_sub_domain then codes "; includeSubDomains" else []))
    else none

abbrev com_hsts : Option Texto → List (String × Texto)
com_hsts none = []
com_hsts (some v) = ("Strict-Transport-Security", v) ∷ []

-- The headers that `HeadersSeguranca` sets before it calls the next handler.
unfoldable pub headers_seguranca : HeadersSegurancaConfig → List (String × Texto)
unfolding com_defaults
headers_seguranca cfg =
    let final = com_defaults cfg in
    ("Content-Security-Policy", final.csp)
    ∷ ("Referrer-Policy", final.referrer_policy)
    ∷ ("Permissions-Policy", final.permissions_policy)
    ∷ ("X-Frame-Options", final.x_frame_options)
    ∷ ("X-Content-Type-Options", final.x_content_type_options)
    ∷ com_hsts (hsts final)

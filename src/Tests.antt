-- ===== src/Tests.antt =====
-- Concrete inputs, and the properties at them.
pub mod Acesso
pub mod Cache
pub mod Canal
pub mod Limites
pub mod Dados
pub mod Servicos
pub mod Telemetria
pub mod Remoto
pub mod Redacao
pub mod Documentos
use deelp_pkg.Texto.{Texto, Unicode, codes, eq_texto}
use deelp_pkg.Http.{Request}
use deelp_pkg.Auth.Claims.{Claims, claims_zero, background, com_claims}
use deelp_pkg.Auth.Token.{Json, MapClaims, Token, Jwt}
use deelp_pkg.Auth.Middleware.{Config}
use deelp_pkg.Prelude.{
  [], true, false, none, some, refl, inl, inr, Bool-cases, Option, if◌then◌else◌, arith,
}
use deelp_pkg.Texto.Laws.{eq_texto→eq, eq→eq_texto}

-- No letter or digit past ASCII.
abbrev pub so_ascii : Unicode
so_ascii = record { lower = λ c. c; upper = λ c. c; digit = λ c. false; fold = λ a b. false }

abbrev pub cfg_teste : Config
cfg_teste = record { secret_key = codes "s"; cookie_name = codes "c" }

-- A read of company e with the token t.
abbrev pub leitura_teste : Request
leitura_teste = record {
  method = codes "GET";
  path = codes "/x";
  raw_query = [];
  remote_addr = codes "1.1.1.1:80";
  header = λ nome. codes "t";
  cookie = λ nome. none;
  path_value = λ nome. codes "e";
  contexto = background;
}

abbrev pub claims_teste : Claims
claims_teste = record claims_zero { usuario_id = codes "u"; empresa_id = codes "e" }

abbrev pub leitura_com_claims : Request
leitura_com_claims = record leitura_teste { contexto = com_claims background claims_teste }

abbrev pub map_claims_teste : MapClaims
map_claims_teste chave =
    if eq_texto chave (codes "usuarioId")
    then Json.texto (codes "u")
    else if eq_texto chave (codes "empresaId")
    then Json.texto (codes "e")
    else Json.nulo

abbrev pub token_se : Option Texto → Option Token
token_se none = none
token_se (some secret) = some (record { valid = true; claims = map_claims_teste })

-- Every token is signed by HMAC and has the same claims.
pub jwt_teste : Jwt
jwt_teste = record {
  is_hmac = λ raw. true;
  parse = λ raw key. token_se (key true);
  key_refused = λ raw key h. rw h refl;
}

pub texto_discrete : Discrete Texto
texto_discrete a b = elim (Bool-cases (eq_texto a b)) [
  | inl e ↦ yes (eq_texto→eq a b e)
  | inr n ↦ no (λ p. ground (arith, eq→eq_texto a b p))
]

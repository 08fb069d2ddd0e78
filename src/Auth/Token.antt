-- ===== src/Auth/Token.antt =====
-- auth/middleware.go: reading a JWT. The library github.com/golang-jwt/jwt is the record `Jwt`; the
-- claims of a token are a JSON object.
use deelp_pkg.Texto.{Texto, codes, vazio, eq_texto, trim_prefix, trim_space}
use deelp_pkg.Auth.Claims.{Claims, claims_zero}
use deelp_pkg.Prelude.{
  [], ◌∷◌, false, none, some, pos, Bool, List, Option, if◌then◌else◌, ℤ, not, ◌≡◌,
}

-- A JSON value. A number stands by the `int64` that Go's conversion makes of it.
mutual
  pub data Json : Type 0 where
    nulo : Json
    booleano : Bool → Json
    numero : ℤ → Json
    texto : Texto → Json
    lista : Itens → Json
    objeto : Json

  pub data Itens : Type 0 where
    nil : Itens
    cons : Json → Itens → Itens

abbrev pub MapClaims : Type 0
MapClaims = Texto → Json

pub record Token : Type 0 where
  pub valid : Bool
  pub claims : MapClaims

-- What the package relies on: `parse` is `ParseWithClaims` with the key function, which sees whether
-- the token's algorithm is of the HMAC family; a token whose key function fails is not parsed.
pub record Jwt : Type 0 where
  pub is_hmac : Texto → Bool
  pub parse : Texto → (Bool → Option Texto) → Option Token
  pub key_refused :
      (raw : Texto) (key : Bool → Option Texto) → key (is_hmac raw) ≡ none → parse raw key ≡ none

-- The key function of both callers.
abbrev pub chave_hmac : Texto → Bool → Option Texto
chave_hmac secret hmac = if hmac then some secret else none

-- `get` of `extrairClaims`, and the other type assertions.
abbrev pub texto_de : Json → Texto
texto_de (texto s) = s
texto_de _ = []

abbrev pub booleano_de : Json → Bool
booleano_de (booleano b) = b
booleano_de _ = false

abbrev pub numero_de : Json → ℤ
numero_de (numero n) = n
numero_de _ = pos 0

-- `listaDeTexto`.
pub textos_de : Itens → List Texto
textos_de nil = []
textos_de (cons item itens) =
    let resto = textos_de itens in if vazio (texto_de item) then resto else texto_de item ∷ resto

unfoldable pub lista_de_texto : Json → List Texto
unfolding textos_de
lista_de_texto (lista itens) = textos_de itens
lista_de_texto _ = []

-- `extrairClaims`.
unfoldable pub extrair_claims : MapClaims → Claims
unfolding lista_de_texto
extrair_claims mc = record {
  usuario_id = texto_de (mc (codes "usuarioId"));
  email = texto_de (mc (codes "email"));
  nome = texto_de (mc (codes "nome"));
  sobrenome = texto_de (mc (codes "sobrenome"));
  empresa_id = texto_de (mc (codes "empresaId"));
  colaboracao_id = texto_de (mc (codes "colaboracaoId"));
  departamento_id = texto_de (mc (codes "departamentoId"));
  cargo_id = texto_de (mc (codes "cargoId"));
  is_platform_admin = booleano_de (mc (codes "isPlatformAdmin"));
  plataforma_modulos = lista_de_texto (mc (codes "plataformaModulos"));
  suporte_empresa_id = texto_de (mc (codes "suporteEmpresaId"));
  sessao_suporte_id = texto_de (mc (codes "sessaoSuporteId"));
  suporte_escrita_ate = numero_de (mc (codes "suporteEscritaAte"));
  canal = texto_de (mc (codes "canal"));
  expira_em = numero_de (mc (codes "exp"));
}

-- `ehRefreshToken`.
unfoldable pub eh_refresh_token : Token → Bool
eh_refresh_token parsed = eq_texto (texto_de (parsed.claims (codes "typ"))) (codes "refresh")

pub data ErroDeToken : Type 0 where
  token_ausente secret_ausente token_invalido token_de_canal derivacao_recusada : ErroDeToken

-- The pair `(Claims, error)`: some errors come with the claims that were read.
abbrev pub Validado : Type 0
Validado = Claims × Option ErroDeToken

-- The end of `ValidarToken`, on the claims of a token that parsed.
validar_claims : Claims → Validado
validar_claims c =
    if vazio c.usuario_id
    then (c, some token_invalido)
    else if not (vazio c.canal)
    then (claims_zero, some token_de_canal)
    else (c, none)

validar_parsed : Option Token → Validado
unfolding validar_claims
validar_parsed none = (claims_zero, some token_invalido)
validar_parsed (some parsed) =
    if not parsed.valid
    then (claims_zero, some token_invalido)
    else if eh_refresh_token parsed
    then (claims_zero, some token_invalido)
    else validar_claims (extrair_claims parsed.claims)

-- `ValidarToken`.
unfoldable pub validar_token : Jwt → Texto → Texto → Validado
unfolding validar_parsed
validar_token jwt token_string secret =
    let raw = trim_space (trim_prefix token_string (codes "Bearer ")) in
    if vazio raw
    then (claims_zero, some token_ausente)
    else if vazio secret
    then (claims_zero, some secret_ausente)
    else validar_parsed (jwt.parse raw (chave_hmac secret))

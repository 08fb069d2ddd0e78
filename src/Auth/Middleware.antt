-- ===== src/Auth/Middleware.antt =====
-- auth/middleware.go: `Autenticacao`, which lets a request pass with the claims of its token in the
-- context. Logging is left out.
pub mod Laws
use text.Mathlib.Text.{◌==◌ as str_eq}
use deelp_pkg.Texto.{Texto, Unicode, codes, vazio, trim_prefix, trim_space, equal_fold}
use deelp_pkg.Http.{Request, Reply, Handler, Middleware, denied}
use deelp_pkg.Http.Status
use deelp_pkg.Auth.Claims.{Claims, com_claims}
use deelp_pkg.Auth.Token.{Jwt, Token, chave_hmac, eh_refresh_token, extrair_claims}
use deelp_pkg.Auth.Leitura.{eh_requisicao_de_leitura}
use deelp_pkg.Auth.Contexto.{suporte_pode_escrever}
use deelp_pkg.Auth.Canal.{recusa_do_canal}
use deelp_pkg.Prelude.{[], none, some, ◌&&◌, ◌||◌, Option, if◌then◌else◌, ℕ, String, not}

-- `Config`, without the logger and the responder.
pub record Config : Type 0 where
  pub secret_key : Texto
  pub cookie_name : Texto

abbrev pub negar : ℕ → String → Reply
negar status mensagem = denied status mensagem []

abbrev pub valor_do_cookie : Option Texto → Texto
valor_do_cookie none = []
valor_do_cookie (some valor) = trim_space valor

-- The token of a request: the header without `Bearer `, or the cookie.
unfoldable pub token_do_request : Config → Request → Texto
token_do_request cfg r =
    let raw = trim_space (trim_prefix (r.header "Authorization") (codes "Bearer ")) in
    if vazio raw && not (vazio cfg.cookie_name)
    then valor_do_cookie (r.cookie cfg.cookie_name)
    else raw

-- The tests on a support session: the refusal, if any.
unfoldable pub recusa_de_suporte : Unicode → ℕ → Request → Claims → Option String
recusa_de_suporte u agora r c =
    if vazio c.suporte_empresa_id
    then none
    else if vazio c.empresa_id || not (equal_fold u c.suporte_empresa_id c.empresa_id)
    then some "Token de suporte inválido"
    else if vazio c.sessao_suporte_id
    then some "Token de suporte sem sessão de origem"
    else if not (eh_requisicao_de_leitura (some r)) && not (suporte_pode_escrever c agora)
    then some "Sessão de suporte é somente leitura"
    else none

-- From the claims on.
abbrev sem_recusa : Option String → Reply → Reply
sem_recusa (some mensagem) seguir = negar Status.forbidden mensagem
sem_recusa none seguir = seguir

unfoldable pub com_identidade : Unicode → ℕ → Handler → Request → Claims → Reply
com_identidade u agora next r c =
    let recusa = recusa_do_canal c r in
    if vazio c.usuario_id
    then negar Status.unauthorized "Token sem identificação do usuário"
    else sem_recusa (recusa_de_suporte u agora r c) (
        if not (vazio c.canal) && not (str_eq recusa "")
        then negar Status.forbidden recusa
        else next (record r { contexto = com_claims r.contexto c }))

unfoldable pub com_token : Unicode → ℕ → Handler → Request → Option Token → Reply
com_token u agora next r none =
    negar Status.unauthorized "Sessão expirada. Por favor, faça login novamente"
com_token u agora next r (some parsed) =
    if not parsed.valid || eh_refresh_token parsed
    then negar Status.unauthorized "Sessão expirada. Por favor, faça login novamente"
    else com_identidade u agora next r (extrair_claims parsed.claims)

-- `Autenticacao`. `agora` is `time.Now()`.
unfoldable pub autenticacao : Unicode → Jwt → ℕ → Config → Middleware
autenticacao u jwt agora cfg next r =
    let raw = token_do_request cfg r in
    if vazio raw
    then negar Status.unauthorized "Você precisa estar logado para realizar esta ação"
    else if vazio cfg.secret_key
    then negar Status.internal_server_error "Erro de configuração: SECRET_KEY não configurada"
    else com_token u agora next r (jwt.parse raw (chave_hmac cfg.secret_key))

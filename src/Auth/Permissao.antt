-- ===== src/Auth/Permissao.antt =====
-- auth/permissao.go: the permission middlewares. A checker answers `(bool, error)`; `none` is the nil
-- checker. Logging is left out.
pub mod Laws
use deelp_pkg.Texto.{Texto, vazio, trim_space}
use deelp_pkg.Http.{Request, Reply, Middleware}
use deelp_pkg.Http.Status
use deelp_pkg.Auth.Claims.{Claims, Contexto, claims_do_contexto}
use deelp_pkg.Auth.Canal.{canal_permite_acao}
use deelp_pkg.Auth.Middleware.{Config, negar, valor_do_cookie}
use deelp_pkg.Prelude.{[], ◌∷◌, true, false, none, some, Bool, List, Option, if◌then◌else◌, not}

-- `(bool, error)`.
pub data Consulta : Type 0 where
  resposta : Bool → Consulta
  erro : Consulta

-- `PermissaoChecker`: context, user, company, module, action.
abbrev pub PermissaoChecker : Type 0
PermissaoChecker = Contexto → Texto → Texto → Texto → Texto → Consulta

-- `PermissaoCheckerRemoto`: context, bearer, user, module, action.
abbrev pub PermissaoCheckerRemoto : Type 0
PermissaoCheckerRemoto = Contexto → Texto → Texto → Texto → Texto → Consulta

pub record ModuloAcao : Type 0 where
  pub modulo : Texto
  pub acao : Texto

-- `BearerDoRequest`.
unfoldable pub bearer_do_request : Request → Texto → Texto
bearer_do_request r cookie_name =
    let raw = trim_space (r.header "Authorization") in
    if not (vazio raw)
    then raw
    else if not (vazio cookie_name)
    then valor_do_cookie (r.cookie cookie_name)
    else []

abbrev pub conforme_resposta : Consulta → Reply → Reply
conforme_resposta erro seguir = negar Status.forbidden "Não foi possível validar sua permissão"
conforme_resposta (resposta permitido) seguir =
    if not permitido
    then negar Status.forbidden "Você não tem permissão para realizar esta ação"
    else seguir

abbrev pub com_checker {ℓ} : {A : Type ℓ} → Option A → (A → Reply) → Reply
com_checker none f = negar Status.forbidden "Autorização indisponível"
com_checker (some checker) f = f checker

-- The tests on the claims that the three middlewares share.
abbrev pub com_empresa : Option Claims → (Claims → Reply) → Reply
com_empresa none f = negar Status.unauthorized "Você precisa estar logado para realizar esta ação"
com_empresa (some c) f =
    if vazio c.usuario_id
    then negar Status.unauthorized "Você precisa estar logado para realizar esta ação"
    else if vazio c.empresa_id
    then negar Status.forbidden "Token sem vínculo de empresa. Selecione uma colaboração novamente."
    else f c

abbrev pub com_canal : Claims → Texto → Reply → Reply
com_canal c acao seguir =
    if not (canal_permite_acao c acao)
    then negar Status.forbidden "O assistente de IA tem acesso somente leitura"
    else seguir

-- `RequerPermissao`.
unfoldable pub requer_permissao : Option PermissaoChecker → Texto → Texto → Middleware
unfolding claims_do_contexto
requer_permissao checker modulo acao next r = com_empresa (claims_do_contexto r.contexto) (λ c.
    com_canal c acao (
      com_checker checker (λ tem_permissao.
        conforme_resposta (tem_permissao r.contexto c.usuario_id c.empresa_id modulo acao)
          (next r))))

-- `RequerPermissaoRemota`.
unfoldable pub requer_permissao_remota :
    Config → Option PermissaoCheckerRemoto → Texto → Texto → Middleware
unfolding claims_do_contexto bearer_do_request
requer_permissao_remota cfg checker modulo acao next r =
    com_empresa (claims_do_contexto r.contexto) (λ c. com_canal c acao (
      com_checker checker (λ tem_permissao.
        conforme_resposta
          (tem_permissao r.contexto (bearer_do_request r cfg.cookie_name) c.usuario_id modulo acao)
          (next r))))

-- The loop of `RequerQualquerPermissaoRemota` over the pairs: it ends with a permission, or with
-- the last error, if there was one.
pub data Varredura : Type 0 where
  permitida : Varredura
  negada : Varredura
  com_erro : Varredura

unfoldable pub varrer : (ModuloAcao → Consulta) → Claims → Bool → List ModuloAcao → Varredura
varrer consultar c ultimo_erro [] = if ultimo_erro then com_erro else negada
varrer consultar c ultimo_erro (par ∷ pares) =
    let sem_par = varrer consultar c ultimo_erro pares in
    let apos_erro = varrer consultar c true pares in
    if not (canal_permite_acao c par.acao) then sem_par else elim (consultar par) [
      | erro ↦ apos_erro
      | resposta permitido ↦ if permitido then permitida else sem_par
    ]

abbrev pub conforme_varredura : Varredura → Reply → Reply
conforme_varredura permitida seguir = seguir
conforme_varredura com_erro seguir = negar Status.forbidden "Não foi possível validar sua permissão"
conforme_varredura negada seguir =
    negar Status.forbidden "Você não tem permissão para realizar esta ação"

abbrev pub sem_pares : List ModuloAcao → Reply → Reply
sem_pares [] seguir = negar Status.forbidden "Autorização indisponível"
sem_pares (_ ∷ _) seguir = seguir

-- `RequerQualquerPermissaoRemota`.
unfoldable pub requer_qualquer_permissao_remota :
    Config → Option PermissaoCheckerRemoto → List ModuloAcao → Middleware
unfolding claims_do_contexto bearer_do_request varrer
requer_qualquer_permissao_remota cfg checker pares next r =
    com_empresa (claims_do_contexto r.contexto) (λ c. com_checker checker (λ tem_permissao.
      sem_pares pares (
        let bearer = bearer_do_request r cfg.cookie_name in
        conforme_varredura
          (varrer (λ par. tem_permissao r.contexto bearer c.usuario_id par.modulo par.acao) c false
            pares)
          (next r))))

-- ===== src/Assinatura/Guarda.antt =====
-- assinatura/guarda.go: the gate in front of the writes. The body of the refusal is its message; its
-- fields `motivo` and `situacao` and the logging are left out.
pub mod Laws
use deelp_pkg.Texto.{Texto, codes, vazio, eq_texto, has_prefix, trim_space}
use deelp_pkg.Http.{Request, Reply, Middleware, denied}
use deelp_pkg.Http.Status
use deelp_pkg.Auth.Contexto.{empresa_id_claim_string}
use deelp_pkg.Auth.Leitura.{eh_requisicao_de_leitura}
use deelp_pkg.Auth.Middleware.{valor_do_cookie}
use deelp_pkg.Prelude.{
  [], ◌∷◌, false, none, some, ◌&&◌, ◌||◌, Bool, List, Option, String, if◌then◌else◌, not,
}

-- What `Checker.ContratoAtivo` gives back: whether the tenant may operate and why not, or an error.
pub data Situacao : Type 0 where
  contrato : Bool → Texto → Situacao
  sem_resposta : Situacao

-- `Checker`, given the bearer and the company.
abbrev pub Checker : Type 0
Checker = Texto → Texto → Situacao

-- `Config`, without the logger.
pub record ConfigGuarda : Type 0 where
  pub cookie_name : Texto
  pub rotas_liberadas : List Texto

-- `liberada`.
unfoldable pub liberada : List Texto → Texto → Bool
liberada [] caminho = false
liberada (prefixo ∷ rotas) caminho =
    (not (vazio prefixo) && has_prefix caminho prefixo) || liberada rotas caminho

-- `bearerDoRequest`.
unfoldable pub bearer_da_assinatura : Request → Texto → Texto
bearer_da_assinatura r cookie_name =
    let raw = trim_space (r.header "Authorization") in
    if not (vazio raw)
    then raw
    else if not (vazio cookie_name)
    then valor_do_cookie (r.cookie cookie_name)
    else []

-- The message that `responder` picks.
abbrev pub mensagem_da_situacao : Texto → String
mensagem_da_situacao situacao =
    if eq_texto situacao (codes "expirado")
    then "O período de teste terminou. Escolha um plano para continuar usando a plataforma."
    else if eq_texto situacao (codes "inadimplente")
    then "Há uma cobrança em aberto. Regularize o pagamento para voltar a lançar; a consulta e a exportação dos seus dados seguem liberadas."
    else if eq_texto situacao (codes "suspenso")
    then "A assinatura está suspensa por falta de pagamento. Regularize o débito para reativar a plataforma."
    else if eq_texto situacao (codes "cancelado")
    then "O contrato foi cancelado. Fale com o suporte para reativar a assinatura."
    else "O contrato da sua empresa não está ativo. Regularize a assinatura para continuar."

-- `responder`.
unfoldable pub responder : Texto → Reply
responder situacao = denied Status.payment_required (mensagem_da_situacao situacao) []

abbrev pub conforme_situacao : Situacao → Reply → Reply
conforme_situacao sem_resposta seguir = seguir
conforme_situacao (contrato ativo motivo) seguir = if not ativo then responder motivo else seguir

abbrev pub com_contrato : Option Checker → Request → Texto → Texto → Reply → Reply
com_contrato none r cookie_name empresa_id seguir = seguir
com_contrato (some checker) r cookie_name empresa_id seguir =
    conforme_situacao (checker (bearer_da_assinatura r cookie_name) empresa_id) seguir

abbrev pub com_tenant : ConfigGuarda → Option Checker → Request → Option Texto → Reply → Reply
com_tenant cfg checker r none seguir = seguir
com_tenant cfg checker r (some empresa_id) seguir =
    if vazio empresa_id then seguir else com_contrato checker r cfg.cookie_name empresa_id seguir

-- `RequerContratoAtivo`.
unfoldable pub requer_contrato_ativo : ConfigGuarda → Option Checker → Middleware
requer_contrato_ativo cfg checker next r =
    if liberada cfg.rotas_liberadas r.path
    then next r
    else com_tenant cfg checker r (empresa_id_claim_string r.contexto) (next r)

-- `ApenasEscrita`.
unfoldable pub apenas_escrita : Middleware → Middleware
apenas_escrita middleware next r =
    if eh_requisicao_de_leitura (some r) then next r else middleware next r

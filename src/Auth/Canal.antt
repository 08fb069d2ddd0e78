-- ===== src/Auth/Canal.antt =====
-- auth/canal.go: the read-only channel of the assistant, and the token derived for it.
pub mod Laws
use text.Mathlib.Text.{◌==◌ as str_eq}
use deelp_pkg.Texto.{Texto, codes, vazio, eq_texto, trim_right_slash, trim_space}
use deelp_pkg.Http.{Request, is_method}
use deelp_pkg.Auth.Leitura.{is_safe_method}
use deelp_pkg.Auth.Claims.{Claims, Contexto, claims_do_contexto}
use deelp_pkg.Auth.Token.{MapClaims, ErroDeToken, Json, secret_ausente, derivacao_recusada}
use deelp_pkg.Prelude.{
  [], ◌∷◌, true, false, none, some, pos, ◌&&◌, ◌||◌, Bool, List, Option, String, if◌then◌else◌, ℕ,
  any, not, ◌*◌, ◌+◌, ◌/◌, ltb, pos_part, ltb_ℤ,
}

abbrev pub canal_assistente : Texto
canal_assistente = codes "ia"

-- `DuracaoTokenAssistente`, in nanoseconds.
abbrev pub duracao_token_assistente : ℕ
duracao_token_assistente = 5 * 60 * 1000000000

abbrev pub acao_de_leitura : Texto
acao_de_leitura = codes "visualizar"

abbrev pub consultas_por_post_do_canal : List Texto
consultas_por_post_do_canal =
    codes "/autenticacao-service/v1/colaboracoes/pesquisar"
    ∷ codes "/cliente-service/v1/clientes/pesquisar"
    ∷ codes "/cliente-service/v1/fornecedores/pesquisar"
    ∷ codes "/estoque-service/v1/materiais/pesquisar"
    ∷ codes "/estoque-service/v1/ncms/pesquisar"
    ∷ codes "/estoque-service/v1/produtos/pesquisar"
    ∷ codes "/financeiro-service/v1/orcamentos-compra/pesquisar"
    ∷ codes "/ordem-service/v1/pedidos/grade/pesquisar"
    ∷ []

-- `consultasPorPostDoCanal[caminho]`.
unfoldable pub consulta_por_post : Texto → Bool
consulta_por_post caminho = any (λ rota. eq_texto caminho rota) consultas_por_post_do_canal

-- `canalPodeChamar`.
unfoldable pub canal_pode_chamar : Request → Bool
unfolding consulta_por_post
canal_pode_chamar r =
    if is_safe_method r
    then true
    else if is_method r "POST"
    then consulta_por_post (trim_right_slash r.path)
    else false

-- `RecusaDoCanal`: the reason to refuse, or the empty message.
unfoldable pub recusa_do_canal : Claims → Request → String
recusa_do_canal c r =
    if vazio c.canal
    then ""
    else if not (eq_texto c.canal canal_assistente)
    then "Canal de acesso desconhecido"
    else if not (vazio c.suporte_empresa_id) || not (vazio c.sessao_suporte_id)
    then "Assistente de IA indisponível em sessão de suporte"
    else if not (canal_pode_chamar r)
    then "O assistente de IA tem acesso somente leitura"
    else ""

-- `CanalPermiteAcao`.
unfoldable pub canal_permite_acao : Claims → Texto → Bool
canal_permite_acao c acao =
    if vazio c.canal
    then true
    else eq_texto c.canal canal_assistente && eq_texto acao acao_de_leitura

-- `EhCanalAssistente`.
abbrev is_assistente : Option Claims → Bool
is_assistente none = false
is_assistente (some c) = eq_texto c.canal canal_assistente

unfoldable pub eh_canal_assistente : Contexto → Bool
unfolding claims_do_contexto
eh_canal_assistente ctx = is_assistente (claims_do_contexto ctx)

-- The claims of the derived token: the fixed ones, and the optional ones that are not empty. The
-- identifier `jti` is a fresh UUID, which the caller gives.
abbrev opcional : Texto → Json
opcional valor = if vazio valor then Json.nulo else Json.texto valor

abbrev pub unix : ℕ → ℕ
unix t = t / 1000000000

unfoldable pub derivadas : Claims → ℕ → ℕ → Texto → MapClaims
derivadas c agora expira jti chave =
    if eq_texto chave (codes "usuarioId")
    then Json.texto c.usuario_id
    else if eq_texto chave (codes "email")
    then Json.texto c.email
    else if eq_texto chave (codes "nome")
    then Json.texto c.nome
    else if eq_texto chave (codes "sobrenome")
    then Json.texto c.sobrenome
    else if eq_texto chave (codes "empresaId")
    then Json.texto c.empresa_id
    else if eq_texto chave (codes "canal")
    then Json.texto canal_assistente
    else if eq_texto chave (codes "iat")
    then Json.numero (pos (unix agora))
    else if eq_texto chave (codes "exp")
    then Json.numero (pos (unix expira))
    else if eq_texto chave (codes "jti")
    then Json.texto jti
    else if eq_texto chave (codes "colaboracaoId")
    then opcional c.colaboracao_id
    else if eq_texto chave (codes "departamentoId")
    then opcional c.departamento_id
    else if eq_texto chave (codes "cargoId")
    then opcional c.cargo_id
    else Json.nulo

-- The expiry of the derived token: five minutes from now, or that of the origin if sooner.
unfoldable pub expiracao : Claims → ℕ → ℕ
expiracao c agora =
    let expira = agora + duracao_token_assistente in
    let origem = pos_part c.expira_em * 1000000000 in
    if ltb_ℤ (pos 0) c.expira_em && ltb origem expira then origem else expira

pub data Derivado (A : Type 0) : Type 0 where
  assinado : A → ℕ → Derivado A
  recusado : ErroDeToken → Derivado A
  falha_ao_assinar : Derivado A

abbrev resultado : {A : Type 0} → Option A → ℕ → Derivado A
resultado none expira = falha_ao_assinar
resultado (some token) expira = assinado token expira

-- `DerivarTokenAssistente`. `assinar` is `NewWithClaims(HS256, claims).SignedString(secret)`.
unfoldable pub derivar_token_assistente :
    {A : Type 0} → (Texto → MapClaims → Option A) → Texto → Claims → Texto → ℕ → Derivado A
derivar_token_assistente assinar jti c secret agora =
    if vazio (trim_space secret)
    then recusado secret_ausente
    else if not (vazio c.canal)
        || not (vazio c.suporte_empresa_id)
        || not (vazio c.sessao_suporte_id)
    then recusado derivacao_recusada
    else if vazio c.usuario_id || vazio c.empresa_id
    then recusado derivacao_recusada
    else let expira = expiracao c agora in
      if not (ltb agora expira)
      then recusado derivacao_recusada
      else resultado (assinar secret (derivadas c agora expira jti)) expira

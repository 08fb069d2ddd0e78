-- ===== src/Auth/Leitura.antt =====
-- auth/leitura.go: which requests only read.
use deelp_pkg.Texto.{Texto, codes, eq_texto, has_suffix, has_prefix, trim_right_slash}
use deelp_pkg.Http.{Request, is_method}
use deelp_pkg.Prelude.{
  [], ◌∷◌, true, false, none, some, ◌||◌, Bool, List, Option, if◌then◌else◌, any, not,
}

abbrev pub sufixos_de_leitura : List Texto
sufixos_de_leitura =
    codes "/pesquisar"
    ∷ codes "/consultar"
    ∷ codes "/listar"
    ∷ codes "/metricas"
    ∷ codes "/metricas-integradas"
    ∷ codes "/previa-calculo"
    ∷ codes "/gerar-pdf-solicitacao"
    ∷ []

abbrev pub caminhos_de_leitura : List Texto
caminhos_de_leitura =
    codes "/financeiro-service/v1/simulacoes/caixa"
    ∷ codes "/financeiro-service/v1/simulacoes/preco"
    ∷ codes "/notificacao-service/v1"
    ∷ []

-- The tests on the path of a POST, its trailing slashes cut.
unfoldable pub post_de_leitura : Texto → Bool
post_de_leitura caminho =
    if any (λ sufixo. has_suffix caminho sufixo) sufixos_de_leitura
    then true
    else if any (λ exacto. eq_texto caminho exacto) caminhos_de_leitura
    then true
    else if has_prefix caminho (codes "/relatorio-service/v1/relatorios/")
    then not (has_suffix caminho (codes "/solicitar"))
    else false

abbrev pub is_safe_method : Request → Bool
is_safe_method r = is_method r "GET" || is_method r "HEAD" || is_method r "OPTIONS"

-- `EhRequisicaoDeLeitura`; `none` is the nil request.
unfoldable pub eh_requisicao_de_leitura : Option Request → Bool
unfolding post_de_leitura
eh_requisicao_de_leitura none = false
eh_requisicao_de_leitura (some r) =
    if is_safe_method r
    then true
    else if is_method r "POST"
    then post_de_leitura (trim_right_slash r.path)
    else false

-- ===== src/Tenantdados/Transporte.antt =====
-- tenantdados/transporte/handlers.go: the internal routes of a service. A reply of the JSON encoder is the
-- value that it encodes; the tracing round the routes passes a request on. The routes of the mux are the
-- same methods and paths as those that reach it.
pub mod Laws
pub mod Rede
pub mod Remoto
use deelp_pkg.Texto.Inteiro.{atoi}
use deelp_pkg.Texto.{Texto, codes, vazio, eq_texto, trim_slash, is_ascii_digit}
use deelp_pkg.Http.{Request, is_method}
use deelp_pkg.Http.Status
use deelp_pkg.Internalauth.{Verificador, valida}
use deelp_pkg.Tenantdados.{
  Arquivo, Servico, RelatorioExpurgo, Expurgo, fase_invalida, interrompido, completo, expurgar,
}
use deelp_pkg.Tenantdados.Exportacao.{exportar}
use deelp_pkg.Prelude.{
  [], ◌∷◌, true, false, none, some, pos, negsuc, ◌&&◌, ◌==◌, Bool, Option, String, if◌then◌else◌, ℕ,
  ℤ, List, leb, not, ◌*◌, ◌++◌, all, ◌+◌, ◌^◌, ◌-◌, ltb,
}

-- A request, with the first value of each key of its query.
pub record Chamada : Type 0 where
  pub pedido : Request
  pub consulta : String → Texto

-- `none` is the report without fields that goes with an invalid phase.
pub data Resposta : Type 0 where
  recusada : ℕ → String → Resposta
  falhou : ℕ → Resposta
  zip : List Arquivo → Resposta
  relatado : RelatorioExpurgo → Resposta
  relato_de_erro : ℕ → Option RelatorioExpurgo → Resposta
  de_outro : ℕ → Resposta

abbrev pub caminho_exportacao : Texto
caminho_exportacao = codes "/interno/tenant/exportacao"

abbrev pub caminho_expurgo : Texto
caminho_expurgo = codes "/interno/tenant/expurgo"

-- `nomeDoServico`.
abbrev ate_barra : Texto → Texto
ate_barra [] = []
ate_barra (c ∷ s) = let resto = ate_barra s in if c == b'/' then [] else c ∷ resto

unfoldable pub nome_do_servico : Texto → Texto
nome_do_servico prefixo =
    let nome = ate_barra (trim_slash prefixo) in if vazio nome then codes "servico" else nome

-- How `empresaDaChamada` ends: with the status and message of a refusal, or with the company.
pub data Empresa (Uuid : Type 0) : Type 0 where
  negada : ℕ → String → Empresa Uuid
  da_empresa : Uuid → Empresa Uuid

abbrev pub zipada : Option (List Arquivo) → Resposta
zipada none = falhou Status.internal_server_error
zipada (some arquivos) = zip arquivos

abbrev pub relatada : {S : Type 0} → S × Expurgo → S × Resposta
relatada (s, fase_invalida) = (s, relato_de_erro Status.internal_server_error none)
relatada (s, interrompido r nome) = (s, relato_de_erro Status.internal_server_error (some r))
relatada (s, completo r) = (s, relatado r)

abbrev pub simular_de : Chamada → Bool
simular_de c = not (eq_texto (c.consulta "simular") (codes "false"))

module _ {Uuid : Type 0} (parse : Texto → Option Uuid) (eh_nil : Uuid → Bool) where
  abbrev id_obrigatorio : Option Uuid → Empresa Uuid
  id_obrigatorio none = negada Status.bad_request "X-Empresa-Id obrigatório"
  id_obrigatorio (some id) =
      if eh_nil id then negada Status.bad_request "X-Empresa-Id obrigatório" else da_empresa id

  -- `empresaDaChamada`.
  unfoldable pub empresa_da_chamada : Option Verificador → Chamada → Empresa Uuid
  empresa_da_chamada v c =
      if not (valida v (some c.pedido))
      then negada Status.forbidden "Acesso interno não autorizado"
      else id_obrigatorio (parse (c.pedido.header "X-Empresa-Id"))

  module _ {S : Type 0} (servico : Uuid → Servico S) where
    abbrev pub exportar_de : S → Empresa Uuid → Resposta
    exportar_de s (negada status texto) = recusada status texto
    exportar_de s (da_empresa id) = zipada (exportar (servico id) s)

    -- `HandlerExportacao`.
    unfoldable pub handler_exportacao : Option Verificador → S → Chamada → S × Resposta
    handler_exportacao v s c = (s, exportar_de s (empresa_da_chamada v c))

    abbrev pub expurgar_de : S → Chamada → Empresa Uuid → S × Resposta
    expurgar_de s c (negada status texto) = (s, recusada status texto)
    expurgar_de s c (da_empresa id) =
        relatada (expurgar (servico id) (atoi (c.consulta "fase")).valor (simular_de c) s)

    -- `HandlerExpurgo`.
    unfoldable pub handler_expurgo : Option Verificador → S → Chamada → S × Resposta
    handler_expurgo v s c = expurgar_de s c (empresa_da_chamada v c)

    -- `Envolver`.
    unfoldable pub envolver :
        Texto → Option Verificador → (S → Chamada → S × Resposta) → S → Chamada → S × Resposta
    envolver prefixo v proximo s c =
        if is_method c.pedido "GET" && eq_texto c.pedido.path (prefixo ++ caminho_exportacao)
        then handler_exportacao v s c
        else if is_method c.pedido "POST" && eq_texto c.pedido.path (prefixo ++ caminho_expurgo)
        then handler_expurgo v s c
        else proximo s c

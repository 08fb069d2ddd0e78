-- ===== src/Tenantdados/Cliente.antt =====
-- tenantdados/transporte/cliente.go: the orchestrator's side of the internal routes. `enviar` is the HTTP
-- exchange; the texts of errors are left out.
use deelp_pkg.Texto.{Texto, codes, vazio, trim_right_slash}
use deelp_pkg.Http.Status
use deelp_pkg.Tenantdados.{RelatorioExpurgo}
use deelp_pkg.Tenantdados.Transporte.{caminho_exportacao, caminho_expurgo}
use deelp_pkg.Auth.Mask.{itoa}
use deelp_pkg.Prelude.{
  [], false, none, some, suc, pos, negsuc, ◌||◌, ◌==◌, Bool, Option, ℕ, ℤ, List, if◌then◌else◌, not,
  ◌++◌,
}

-- `Cliente`, without its HTTP client, and `NovoCliente`.
pub record Cliente : Type 0 where
  pub servico : Texto
  pub base_url : Texto
  pub prefixo : Texto
  pub internal_key : Texto

unfoldable pub novo_cliente : Texto → Texto → Texto → Texto → Cliente
novo_cliente servico base_url prefixo internal_key = record {
  servico = servico;
  base_url = trim_right_slash base_url;
  prefixo = prefixo;
  internal_key = internal_key;
}

-- A request, with the two headers that `requisicao` sets.
pub record Requisicao : Type 0 where
  pub metodo : Texto
  pub url : Texto
  pub internal_key : Texto
  pub empresa_id : Texto

-- The JSON of an answer to a purge.
pub record EnvelopeExpurgo : Type 0 where
  pub sucesso : Bool
  pub conteudo : RelatorioExpurgo

-- What comes back: the status, the body if it can be read, and the envelope if the body is one.
pub record RespostaInterna : Type 0 where
  pub status : ℕ
  pub corpo : Option (List ℕ)
  pub envelope : Option EnvelopeExpurgo

-- `fmt.Sprintf` of an int and of a bool.
abbrev pub escrito : ℤ → Texto
escrito (pos n) = itoa n
escrito (negsuc n) = codes "-" ++ itoa (suc n)

abbrev pub escrito_bool : Bool → Texto
escrito_bool b = if b then codes "true" else codes "false"

module _ (enviar : Requisicao → Option RespostaInterna) where
  -- `requisicao`.
  unfoldable pub requisicao : Cliente → Texto → Texto → Texto → Option RespostaInterna
  requisicao c metodo caminho empresa_id =
      if vazio c.base_url
      then none
      else enviar (record {
        metodo = metodo;
        url = c.base_url ++ c.prefixo ++ caminho;
        internal_key = c.internal_key;
        empresa_id = empresa_id;
      })

  -- `Exportar`.
  abbrev corpo_aceito : Option RespostaInterna → Option (List ℕ)
  corpo_aceito none = none
  corpo_aceito (some r) = if not (r.status == Status.ok) then none else r.corpo

  unfoldable pub exportar_remoto : Cliente → Texto → Option (List ℕ)
  exportar_remoto c empresa_id =
      corpo_aceito (requisicao c (codes "GET") caminho_exportacao empresa_id)

  -- `Expurgar`: the report, and whether there is no error.
  abbrev pub sem_itens : Cliente → ℤ → Bool → RelatorioExpurgo
  sem_itens c fase simular = record {
    servico = c.servico;
    fase = fase;
    simulado = simular;
    itens = [];
  }

  abbrev pub do_envelope : Cliente → ℕ → EnvelopeExpurgo → RelatorioExpurgo × Bool
  do_envelope c status e =
      (record e.conteudo { servico = c.servico }, not (not e.sucesso || not (status == Status.ok)))

  abbrev pub relatorio_remoto :
      Cliente → ℤ → Bool → Option RespostaInterna → RelatorioExpurgo × Bool
  relatorio_remoto c fase simular none = (sem_itens c fase simular, false)
  relatorio_remoto c fase simular (some r) = elim r.envelope [
    | none ↦ (sem_itens c fase simular, false)
    | some e ↦ do_envelope c r.status e
  ]

  unfoldable pub expurgar_remoto : Cliente → Texto → ℤ → Bool → RelatorioExpurgo × Bool
  expurgar_remoto c empresa_id fase simular = relatorio_remoto c fase simular (
      requisicao c (codes "POST")
        (caminho_expurgo
          ++ codes "?fase="
          ++ escrito fase
          ++ codes "&simular="
          ++ escrito_bool simular)
        empresa_id)

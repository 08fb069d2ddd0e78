-- ===== src/Seguranca/Eventos.antt =====
-- seguranca/eventos.go, and seguranca/metricas.go: what an event of security writes to the log and counts. The
-- log and the counters of OpenTelemetry are the values that they are given; `V` is the type of a detail's other
-- values. A map of details is the list in the order in which the loop walks it.
use deelp_pkg.Texto.{Texto, codes, vazio, eq_texto}
use deelp_pkg.Http.{Request}
use deelp_pkg.Seguranca.Ip.{ip_do_request}
use deelp_pkg.Prelude.{[], ◌∷◌, none, some, Bool, List, Option, if◌then◌else◌, String, ◌++◌}

-- A counter of the package, and an increment of it by one with its labels.
pub data Contador : Type 0 where
  security_events_total login_attempts_total ip_blocks_total : Contador
  tenant_guard_blocks_total csrf_failures_total refresh_token_failures_total : Contador

pub record Incremento : Type 0 where
  pub contador : Contador
  pub atributos : List (String × Texto)

-- `inicializarMetricas` and `incrementar`; `criado` is whether the counter could be made.
unfoldable pub incrementar : (Contador → Bool) → Contador → List (String × Texto) → List Incremento
incrementar criado c atributos =
    if criado c then record { contador = c; atributos = atributos } ∷ [] else []

module _ (criado : Contador → Bool) where
  -- `MetricaEvento`.
  abbrev pub metrica_evento : Texto → Texto → List Incremento
  metrica_evento evento servico =
      incrementar criado security_events_total (("evento", evento) ∷ ("servico", servico) ∷ [])

  -- `MetricaLoginTentativa`.
  abbrev pub metrica_login_tentativa : Texto → List Incremento
  metrica_login_tentativa resultado =
      incrementar criado login_attempts_total (("resultado", resultado) ∷ [])

  -- `MetricaIPBloqueado`.
  abbrev pub metrica_ip_bloqueado : Texto → Texto → List Incremento
  metrica_ip_bloqueado servico motivo =
      incrementar criado ip_blocks_total (("servico", servico) ∷ ("motivo", motivo) ∷ [])

  -- `MetricaTenantGuardBloqueio`.
  abbrev pub metrica_tenant_guard_bloqueio : Texto → Texto → List Incremento
  metrica_tenant_guard_bloqueio servico motivo =
      incrementar criado tenant_guard_blocks_total (("servico", servico) ∷ ("motivo", motivo) ∷ [])

  -- `MetricaCSRFFalha`.
  abbrev pub metrica_csrf_falha : Texto → Texto → List Incremento
  metrica_csrf_falha servico motivo =
      incrementar criado csrf_failures_total (("servico", servico) ∷ ("motivo", motivo) ∷ [])

  -- `MetricaRefreshTokenFalha`.
  abbrev pub metrica_refresh_token_falha : Texto → List Incremento
  metrica_refresh_token_falha motivo =
      incrementar criado refresh_token_failures_total (("motivo", motivo) ∷ [])

-- The value of a detail: a string, or another.
pub data Detalhe (V : Type 0) : Type 0 where
  cadeia : Texto → Detalhe V
  outro : V → Detalhe V

-- `EventoSeg`.
pub record EventoSeg (V : Type 0) : Type 0 where
  pub evento : Texto
  pub usuario_id : Texto
  pub empresa_id : Texto
  pub ip : Texto
  pub user_agent : Texto
  pub path : Texto
  pub metodo : Texto
  pub detalhes : List (Texto × Detalhe V)

-- What an event leaves: the attributes of its line in the log, and the increments.
pub record Emitido (V : Type 0) : Type 0 where
  pub atributos : List (Texto × Detalhe V)
  pub incrementos : List Incremento

-- An attribute where the text is not empty.
abbrev pub se_dito : {V : Type 0} → String → Texto → List (Texto × Detalhe V)
se_dito nome valor = if vazio valor then [] else (codes nome, cadeia valor) ∷ []

-- The text of the detail `servico`.
abbrev do_detalhe : {V : Type 0} → Detalhe V → Texto
do_detalhe (cadeia s) = s
do_detalhe (outro v) = []

unfoldable pub servico_de : {V : Type 0} → List (Texto × Detalhe V) → Texto
servico_de [] = []
servico_de ((k, v) ∷ resto) =
    let depois = servico_de resto in if eq_texto k (codes "servico") then do_detalhe v else depois

-- `EmitirEvento`.
unfoldable pub emitir_evento : {V : Type 0} → (Contador → Bool) → EventoSeg V → Emitido V
emitir_evento criado e = record {
  atributos =
      (codes "evento", cadeia e.evento)
      ∷ (se_dito "usuario_id" e.usuario_id
          ++ (se_dito "empresa_id" e.empresa_id
              ++ (se_dito "ip" e.ip
                  ++ (se_dito "user_agent" e.user_agent
                      ++ (se_dito "path" e.path ++ (se_dito "metodo" e.metodo ++ e.detalhes))))));
  incrementos = metrica_evento criado e.evento (servico_de e.detalhes);
}

abbrev ou_do_request : Texto → Texto → Texto
ou_do_request dito do_request = if vazio dito then do_request else dito

-- `EmitirEventoRequest`; there may be no request.
abbrev pub preenchido : {V : Type 0} → Request → EventoSeg V → EventoSeg V
preenchido r e = record e {
  ip = ou_do_request e.ip (ip_do_request r);
  user_agent = ou_do_request e.user_agent (r.header "User-Agent");
  path = ou_do_request e.path r.path;
  metodo = ou_do_request e.metodo r.method;
}

unfoldable pub emitir_evento_request :
    {V : Type 0} → (Contador → Bool) → Option Request → EventoSeg V → Emitido V
emitir_evento_request criado none e = emitir_evento criado e
emitir_evento_request criado (some r) e = emitir_evento criado (preenchido r e)

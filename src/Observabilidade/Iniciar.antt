-- ===== src/Observabilidade/Iniciar.antt =====
-- observabilidade/observabilidade.go: `Iniciar` and the providers that it puts in place, and
-- observabilidade/amostragem.go. The exporters of OpenTelemetry are their options; `F` is the type of fractions.
pub mod Laws
use deelp_pkg.Texto.{Texto, Unicode, codes, vazio}
use deelp_pkg.Observabilidade.Endpoint.{
  Url, ConfigOtel, Protocolo, EndpointConfig, Endereco, ErroOtel, validar, resolve_endpoint,
  protocolo_efetivo, habilitada, endereco_sondagem, secure_proxy, grpc, http, nao_dito, auto,
  desconhecido, erro, resolvido,
}
use deelp_pkg.Prelude.{
  [], ◌∷◌, true, false, none, some, ◌||◌, Bool, List, Option, if◌then◌else◌, ℕ, ◌++◌, ◌+◌, ◌-◌, suc,
}

-- `Config`, with the fields that only `Iniciar` reads.
pub record ConfigIniciar (F : Type 0) : Type 0 where
  pub config : ConfigOtel
  pub versao_servico : Texto
  pub ambiente : Texto
  pub amostragem : F

-- How an exporter reaches the collector; over HTTP with TLS its proxy may be `secureProxy`.
pub data TransporteOtlp : Type 0 where
  http_tls http_tls_secure_proxy http_insecure grpc_tls grpc_insecure : TransporteOtlp

-- The options of an exporter; over HTTP it has a path.
pub record Opcoes : Type 0 where
  pub transporte : TransporteOtlp
  pub host : Texto
  pub url_path : Option Texto

-- The sampler, in `ParentBased`.
pub data Sampler (F : Type 0) : Type 0 where
  always_sample : Sampler F
  trace_id_ratio : F → Sampler F

-- What the spans go through on their way out.
pub data Saida : Type 0 where
  direta redigida : Opcoes → Saida

-- A processor of the tracer provider: the batcher, which gives an exporter the spans that ended, or
-- `processadorTenant`, which acts where a span starts.
pub data SpanProcessor : Type 0 where
  batcher : Saida → SpanProcessor
  processador_tenant : SpanProcessor

-- The two providers: the processors of the spans in the order of their registration; `metricas` is the exporter
-- of the metrics, `intervalo` the option of its reader.
pub record Providers (F : Type 0) : Type 0 where
  pub span_processors : List SpanProcessor
  pub sampler : Sampler F
  pub metricas : Opcoes
  pub intervalo : Option ℕ
  pub recurso : List (Texto × Texto)

-- The calls that make exporters and end them, as far as they succeed.
pub data CriacaoOtlp : Type 0 where
  criou_traces criou_metricas : Opcoes → CriacaoOtlp
  encerrou_traces : CriacaoOtlp

pub data Instalacao (F : Type 0) : Type 0 where
  sem_traces sem_metricas protocolo_estranho : Instalacao F
  instalada : Providers F → Instalacao F

-- The environment, and which exporters can be made. `insegura` is whether OTEL_EXPORTER_OTLP_* asks for a
-- connection without TLS, which the exporters over HTTP take on even where they are given TLS.
pub record AmbienteOtel (F : Type 0) : Type 0 where
  pub habilitada_env : Texto
  pub hostname : Texto
  pub export_interval : Texto
  pub sample_ratio : F
  pub trace_new : Opcoes → Bool
  pub metric_new : Opcoes → Bool
  pub acessivel : Texto → Bool
  pub insegura : Bool

-- The order of fractions with 0 and 1.
pub record Fracoes (F : Type 0) : Type 0 where
  pub le_zero : F → Bool
  pub ge_one : F → Bool

abbrev pub intervalo_exportacao_padrao : ℕ
intervalo_exportacao_padrao = 15000000000

abbrev ou_texto : Texto → Texto → Texto
ou_texto v padrao = if vazio v then padrao else v

-- The options of an exporter over HTTP, at a path below the address, and over gRPC.
abbrev pub opcoes_http : EndpointConfig → Texto → Opcoes
opcoes_http e caminho = record {
  transporte = if e.secure then http_tls_secure_proxy else http_insecure;
  host = e.host;
  url_path = some (e.path ++ caminho);
}

abbrev pub opcoes_grpc : EndpointConfig → Opcoes
opcoes_grpc e = record {
  transporte = if e.secure then grpc_tls else grpc_insecure;
  host = e.host;
  url_path = none;
}

-- How the data of an exporter leave: encrypted, in the clear, or not at all. An exporter over HTTP that was given
-- TLS asks `secureProxy` before it connects, with the scheme that it has in the end.
pub data Conexao : Type 0 where
  cifrada em_claro recusada_antes : Conexao

abbrev pub pelo_proxy : Option (Unit {0}) → Conexao
pelo_proxy (some p) = cifrada
pelo_proxy none = recusada_antes

unfoldable pub conexao_de : Bool → TransporteOtlp → Conexao
conexao_de insegura http_tls_secure_proxy =
    pelo_proxy (secure_proxy (if insegura then codes "http" else codes "https") tt)
conexao_de insegura http_tls = if insegura then em_claro else cifrada
conexao_de insegura http_insecure = em_claro
conexao_de insegura grpc_tls = cifrada
conexao_de insegura grpc_insecure = em_claro

module _ {F : Type 0} (ord : Fracoes F) (amb : AmbienteOtel F) where
  -- `amostrador`; `sample_ratio` is what ParseFloat makes of the variable, 0 if it is no number.
  unfoldable pub amostrador : F → Sampler F
  amostrador fracao =
      let f = if ord.le_zero fracao then amb.sample_ratio else fracao in
      if ord.le_zero f || ord.ge_one f then always_sample else trace_id_ratio f

  -- `opcoesLeitor`.
  abbrev pub opcoes_leitor : Option ℕ
  opcoes_leitor = if vazio amb.export_interval then some intervalo_exportacao_padrao else none

  -- The attributes of the resource.
  abbrev pub atributos_recurso : ConfigIniciar F → List (Texto × Texto)
  atributos_recurso c =
      (codes "service.name", c.config.nome_servico)
      ∷ (codes "service.version", ou_texto c.versao_servico (codes "0.0.0"))
      ∷ (codes "deployment.environment.name", ou_texto c.ambiente (codes "unknown"))
      ∷ (if vazio amb.hostname then [] else (codes "service.instance.id", amb.hostname) ∷ [])

  abbrev pub providers : ConfigIniciar F → Opcoes → Opcoes → Providers F
  providers c traces metricas = record {
    span_processors = batcher (redigida traces) ∷ processador_tenant ∷ [];
    sampler = amostrador c.amostragem;
    metricas = metricas;
    intervalo = opcoes_leitor;
    recurso = atributos_recurso c;
  }

  -- The exporters of a protocol: traces, then metrics; those that were made are ended where the next fails.
  unfoldable pub criar : ConfigIniciar F → Opcoes → Opcoes → List CriacaoOtlp × Instalacao F
  criar c traces metricas =
      if amb.trace_new traces
      then (if amb.metric_new metricas
          then (
            criou_traces traces ∷ criou_metricas metricas ∷ [],
            instalada (providers c traces metricas),
          )
          else (criou_traces traces ∷ encerrou_traces ∷ [], sem_metricas))
      else ([], sem_traces)

  -- `instalarProviders`, of the effective protocol.
  unfoldable pub instalar_providers :
      Protocolo → ConfigIniciar F → EndpointConfig → List CriacaoOtlp × Instalacao F
  instalar_providers http c e =
      criar c (opcoes_http e (codes "/v1/traces")) (opcoes_http e (codes "/v1/metrics"))
  instalar_providers grpc c e = criar c (opcoes_grpc e) (opcoes_grpc e)
  instalar_providers nao_dito c e = ([], protocolo_estranho)
  instalar_providers auto c e = ([], protocolo_estranho)
  instalar_providers (desconhecido p) c e = ([], protocolo_estranho)

-- How `Iniciar` ends: not enabled, refused, without exporters, with the providers in place, or with a goroutine
-- that waits for the collector of that address.
pub data Inicio (F : Type 0) : Type 0 where
  desativada : Inicio F
  recusada : ErroOtel → Inicio F
  sem_exportador : Instalacao F → Inicio F
  ligada : Providers F → Inicio F
  em_espera : EndpointConfig → Inicio F

-- The end, the calls made, and whether the error handler and the propagator were set.
pub record Iniciada (F : Type 0) : Type 0 where
  pub fim : Inicio F
  pub chamadas : List CriacaoOtlp
  pub globais : Bool

abbrev pub sem_chamadas : {F : Type 0} → Inicio F → Iniciada F
sem_chamadas fim = record { fim = fim; chamadas = []; globais = false }

abbrev pub do_resultado : {F : Type 0} → Instalacao F → Inicio F
do_resultado (instalada p) = ligada p
do_resultado sem_traces = sem_exportador sem_traces
do_resultado sem_metricas = sem_exportador sem_metricas
do_resultado protocolo_estranho = sem_exportador protocolo_estranho

module _ {F : Type 0} (ord : Fracoes F) (amb : AmbienteOtel F) (u : Unicode)
    (parse : Texto → Option Url) (tem_porta : Texto → Bool) (juntar : Texto → Texto → Texto) where
  -- `instalarProviders`.
  abbrev pub instalar : ConfigIniciar F → EndpointConfig → List CriacaoOtlp × Instalacao F
  instalar c e = instalar_providers ord amb (protocolo_efetivo u parse c.config) c e

  abbrev pub com_endereco : ConfigIniciar F → Endereco → Iniciada F
  com_endereco c (erro x) = sem_chamadas (recusada x)
  com_endereco c (resolvido e) =
      let (chamadas, r) = instalar c e in
      if amb.acessivel (endereco_sondagem u parse tem_porta juntar c.config e)
      then record { fim = do_resultado r; chamadas = chamadas; globais = true }
      else record { fim = em_espera e; chamadas = []; globais = true }

  abbrev com_validacao : ConfigIniciar F → Option ErroOtel → Iniciada F
  com_validacao c (some x) = sem_chamadas (recusada x)
  com_validacao c none = com_endereco c (resolve_endpoint u parse c.config)

  -- `Iniciar`.
  unfoldable pub iniciar : ConfigIniciar F → Iniciada F
  iniciar c =
      if habilitada u parse amb.habilitada_env
      then com_validacao c (validar c.config)
      else sem_chamadas desativada

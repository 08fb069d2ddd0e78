-- ===== src/Tests/Telemetria.antt =====
-- The checker of the layers and the telemetry at concrete inputs.
use deelp_pkg.Tests.{so_ascii}
use deelp_pkg.Texto.{Texto, codes}
use deelp_pkg.Arquitetura.{
  Servico, Violacao, Entrada, Entradas, arquivo_go, diretorio, nenhuma, entrada, verificar,
}
use deelp_pkg.Arquitetura.Achados.{Exato, IsProibido, verificar-Exato}
use deelp_pkg.Arquitetura.Comando.{inexistente, lido, executar}
use deelp_pkg.Arquitetura.Baseline.{
  IsLinhaLimpa, IsAprovado, impressa, executar-codigo, executar-gerada,
}
use deelp_pkg.Observabilidade.Coletor.{handle, tratar, Espera, inicial}
use deelp_pkg.Observabilidade.Coletor.Avisos.{Conforme, handle-Conforme}
use deelp_pkg.Observabilidade.Endpoint.{
  Url, ConfigOtel, EndpointConfig, Protocolo, grpc, resolvido, resolve_endpoint,
}
use deelp_pkg.Observabilidade.Redacao.{Letras, segmento_sensivel, trocar_segmento, sanitizar_path}
use deelp_pkg.Observabilidade.Redacao.Caminho.{sanitizar_path-segmentos}
use deelp_pkg.Texto.{split}
use deelp_pkg.Prelude.{
  [], ◌∷◌, none, some, true, false, refl, List, Option, length, ℕ, ◌≡◌, map, ◌+◌, ◌↔◌, All, ◌≤◌,
  ◌==◌, leb,
}
use deelp_pkg.Observabilidade.Etapa.{finalizar_span_err, erro_de_mensagem, limite_mensagem_span}
use deelp_pkg.Observabilidade.Etapa.Laws.{finalizar_span_err-erro_de_mensagem}
use deelp_pkg.Observabilidade.Iniciar.{
  AmbienteOtel, ConfigIniciar, Fracoes, Opcoes, Providers, instalar_providers, opcoes_grpc,
  providers,
}
use deelp_pkg.Observabilidade.Iniciar.Laws.{abertos, em_uso, instalar_providers-em_uso}

-- A file of the domain that imports the infrastructure.
abbrev raiz_teste : Entradas
raiz_teste =
    entrada
      (diretorio (codes "internal") (
        entrada
          (diretorio (codes "domain")
            (entrada (arquivo_go (codes "a.go") (some (codes "m/internal/infra/db" ∷ []))) nenhuma))
          nenhuma))
      nenhuma

abbrev servico_go : Servico
servico_go = record { go_mod = some (codes "module m" ∷ []); raiz = raiz_teste }

verificar-Exato_example : Exato (verificar servico_go) (IsProibido servico_go)
verificar-Exato_example = verificar-Exato servico_go

executar-codigo_example :
    (◌≡◌ {A = ℕ} (executar servico_go (some inexistente) false true).codigo 0)
    ↔ IsAprovado servico_go inexistente true
executar-codigo_example = executar-codigo servico_go inexistente true

abbrev violacoes_teste : List Violacao
violacoes_teste =
    record { arquivo = codes "internal/domain/a.go"; importa = codes "internal/infra/db" } ∷ []

verificar_teste : verificar servico_go ≡ some violacoes_teste
unfolding verificar deelp_pkg.Arquitetura.modulo_de deelp_pkg.Texto.has_prefix
    deelp_pkg.Texto.trim_space deelp_pkg.Arquitetura.visitar_todas deelp_pkg.Arquitetura.pulada
    deelp_pkg.Texto.eq_texto deelp_pkg.Arquitetura.do_arquivo deelp_pkg.Texto.has_suffix
    deelp_pkg.Arquitetura.regra_em deelp_pkg.Ordem.ordenar deelp_pkg.Arquitetura.dos_imports
    deelp_pkg.Arquitetura.do_import deelp_pkg.Texto.trim_prefix deelp_pkg.Arquitetura.proibicoes
verificar_teste = refl

limpa_teste : IsLinhaLimpa (codes "internal/domain/a.go -> internal/infra/db")
unfolding deelp_pkg.Texto.has_prefix deelp_pkg.Texto.trim_space
limpa_teste = record { sem_quebra = refl; aparada = refl; nao_vazia = refl; sem_comentario = refl }

executar-gerada_example :
    (executar servico_go
      (some (lido (impressa (executar servico_go none true false).saida)))
      false
      true).codigo
    ≡ 0
executar-gerada_example =
    executar-gerada servico_go none false true violacoes_teste verificar_teste (limpa_teste, tt)

-- A warning, and an error two instants later without one; the next is five minutes after the first.
abbrev instantes_teste : List ℕ
instantes_teste = 3 ∷ 1 ∷ []

handle-Conforme_example :
    Conforme
      ((3, none) ∷ (1, some (record { quando = 1; omitidos = 0 })) ∷ [])
      300000000001
      (some (record { quando = 300000000001; omitidos = 1 }))
unfolding tratar handle
handle-Conforme_example = handle-Conforme instantes_teste 300000000001

abbrev espera_teste : Espera ℕ
espera_teste = inicial

abbrev url_teste : Url
url_teste = record {
  scheme = codes "http";
  hostname = codes "c";
  host = codes "c:4317";
  port = codes "4317";
  path = [];
  user = false;
  raw_query = [];
  force_query = false;
  fragment = [];
}

abbrev interpretada : Texto → Option Url
interpretada t = some url_teste

abbrev config_otel : ConfigOtel
config_otel = record {
  nome_servico = codes "s";
  endpoint = codes "c:4317";
  protocolo = grpc;
  tls = some false;
}

abbrev endpoint_teste : EndpointConfig
endpoint_teste = record { host = codes "c:4317"; path = []; secure = true }

resolvido_teste : resolve_endpoint so_ascii interpretada config_otel ≡ resolvido endpoint_teste
unfolding resolve_endpoint deelp_pkg.Texto.contains deelp_pkg.Texto.trim_space
    deelp_pkg.Observabilidade.Endpoint.resolver_url deelp_pkg.Texto.eq_texto
    deelp_pkg.Texto.Inteiro.atoi deelp_pkg.Texto.has_suffix deelp_pkg.Texto.trim_right_slash
resolvido_teste = refl

abbrev config_iniciar : ConfigIniciar ℕ
config_iniciar = record { config = config_otel; versao_servico = []; ambiente = []; amostragem = 0 }

-- Fractions are hundredths; the collector answers, and every exporter can be made.
abbrev fracoes_teste : Fracoes ℕ
fracoes_teste = record { le_zero = λ f. f == 0; ge_one = λ f. leb 100 f }

abbrev ambiente_teste : AmbienteOtel ℕ
ambiente_teste = record {
  habilitada_env = [];
  hostname = [];
  export_interval = [];
  sample_ratio = 0;
  trace_new = λ o. true;
  metric_new = λ o. true;
  acessivel = λ e. true;
  insegura = true;
}

abbrev opcoes_teste : Opcoes
opcoes_teste = opcoes_grpc endpoint_teste

abbrev providers_teste : Providers ℕ
providers_teste = providers fracoes_teste ambiente_teste config_iniciar opcoes_teste opcoes_teste

-- No exporter of metrics can be made.
abbrev sem_metricas_teste : AmbienteOtel ℕ
sem_metricas_teste = record ambiente_teste { metric_new = λ o. false }

instalar_providers-em_uso_example :
    abertos []
      (instalar_providers fracoes_teste sem_metricas_teste grpc config_iniciar endpoint_teste).0
    ≡ em_uso
        (instalar_providers fracoes_teste sem_metricas_teste grpc config_iniciar endpoint_teste).1
instalar_providers-em_uso_example =
    instalar_providers-em_uso fracoes_teste sem_metricas_teste grpc config_iniciar endpoint_teste

abbrev letras_teste : Letras
letras_teste = record { minuscula = λ c. false; maiuscula = λ c. false; letra = λ c. false }

abbrev caminho_teste : Texto
caminho_teste = codes "/clientes/12345678901"

sanitizar_path-segmentos_example :
    (split b'/' (sanitizar_path so_ascii letras_teste caminho_teste)
      ≡ map (trocar_segmento so_ascii letras_teste) (split b'/' caminho_teste))
    × All
        (λ s. segmento_sensivel so_ascii letras_teste s ≡ false)
        (split b'/' (sanitizar_path so_ascii letras_teste caminho_teste))
    × (sanitizar_path so_ascii letras_teste (sanitizar_path so_ascii letras_teste caminho_teste)
        ≡ sanitizar_path so_ascii letras_teste caminho_teste)
sanitizar_path-segmentos_example = sanitizar_path-segmentos so_ascii letras_teste caminho_teste

-- A redaction that replaces every text.
abbrev redigir_tudo : Texto → Texto
redigir_tudo msg = codes "x"

finalizar_span_err-erro_de_mensagem_example :
    (finalizar_span_err redigir_tudo (some (codes "senha 1"))
      ≡ some (erro_de_mensagem redigir_tudo (codes "senha 1")))
    × (length (erro_de_mensagem redigir_tudo (codes "senha 1")) ≤ limite_mensagem_span + 1)
finalizar_span_err-erro_de_mensagem_example =
    finalizar_span_err-erro_de_mensagem redigir_tudo (codes "senha 1")

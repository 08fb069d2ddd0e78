-- ===== src/Observabilidade/Iniciar/Laws.antt =====
-- What `Iniciar` puts in place, and what it ends where it fails.
use deelp_pkg.Observabilidade.Endpoint.{
  Protocolo, EndpointConfig, grpc, http, nao_dito, auto, desconhecido, Url, resolve_endpoint,
  resolvido,
}
use deelp_pkg.Observabilidade.Iniciar.{
  Opcoes, Providers, SpanProcessor, batcher, redigida, direta, conexao_de, cifrada, em_claro,
  recusada_antes, CriacaoOtlp, criou_traces, criou_metricas, encerrou_traces, Instalacao, instalada,
  sem_traces, sem_metricas, protocolo_estranho, Saida, processador_tenant, criar,
  instalar_providers, Fracoes, AmbienteOtel, ConfigIniciar, ligada, em_espera, instalar, Inicio,
}
use deelp_pkg.Prelude.{
  ◌≡◌, [], ◌∷◌, true, false, List, Bool, drop, inl, inr, refl, Bool-cases, Option, ◌⊎◌, none, ◌≢◌,
}
use deelp_pkg.Texto.{Texto, Unicode}

-- An exporter that reaches an address of the collector: where the address is secure it is encrypted, or blocked
-- before it connects, over HTTP and where the environment asks for an insecure one; else it is in the clear.
abbrev pub Ligado : Bool → EndpointConfig → Opcoes → Type 0
Ligado insegura e o =
    (o.host ≡ e.host)
    × (((e.secure ≡ true) × (conexao_de insegura o.transporte ≡ cifrada))
        ⊎ (((e.secure ≡ true)
              × (insegura ≡ true)
              × (o.url_path ≢ none)
              × (conexao_de insegura o.transporte ≡ recusada_antes))
            ⊎ ((e.secure ≡ false) × (conexao_de insegura o.transporte ≡ em_claro))))

-- Both exporters reach the address; all spans go through the tenant's processor, which acts at their start, and
-- through one batcher, which gives them to the exporter redacted.
pub record Exporta {F : Type 0} (insegura : Bool) (e : EndpointConfig) (p : Providers F)
    : Type 0 where
  pub spans :
      (o : Opcoes) × (p.span_processors ≡ batcher (redigida o) ∷ processador_tenant ∷ [])
      × Ligado insegura e o
  pub metricas : Ligado insegura e p.metricas

-- The exporters that were made and not ended, the last first.
abbrev pub abertos : List Opcoes → List CriacaoOtlp → List Opcoes
abertos os [] = os
abertos os (criou_traces o ∷ cs) = abertos (o ∷ os) cs
abertos os (criou_metricas o ∷ cs) = abertos (o ∷ os) cs
abertos os (encerrou_traces ∷ cs) = abertos (drop 1 os) cs

abbrev opcoes_da_saida : Saida → Opcoes
opcoes_da_saida (direta o) = o
opcoes_da_saida (redigida o) = o

abbrev dos_processadores : List SpanProcessor → List Opcoes
dos_processadores [] = []
dos_processadores (batcher s ∷ ps) = opcoes_da_saida s ∷ dos_processadores ps
dos_processadores (processador_tenant ∷ ps) = dos_processadores ps

-- The exporters of the providers in place, if any.
abbrev pub em_uso : {F : Type 0} → Instalacao F → List Opcoes
em_uso (instalada p) = p.metricas ∷ dos_processadores p.span_processors
em_uso sem_traces = []
em_uso sem_metricas = []
em_uso protocolo_estranho = []

abbrev providers_de : {F : Type 0} → Providers F → Instalacao F → Providers F
providers_de d (instalada p) = p
providers_de d sem_traces = d
providers_de d sem_metricas = d
providers_de d protocolo_estranho = d

abbrev eh_instalada : {F : Type 0} → Instalacao F → Bool
eh_instalada (instalada p) = true
eh_instalada sem_traces = false
eh_instalada sem_metricas = false
eh_instalada protocolo_estranho = false

module _ {F : Type 0} (ord : Fracoes F) (amb : AmbienteOtel F) where
  criar-em_uso :
      (c : ConfigIniciar F) (t m : Opcoes)
      → abertos [] (criar ord amb c t m).0 ≡ em_uso (criar ord amb c t m).1
  unfolding criar
  criar-em_uso c t m = elim (Bool-cases (amb.trace_new t)) [
    | inl a ↦ elim (Bool-cases (amb.metric_new m)) [
      | inl b ↦ rw (a, b) refl
      | inr b ↦ rw (a, b) refl
    ]
    | inr a ↦ rw a refl
  ]

  -- Every exporter that `instalarProviders` makes is of the providers that it puts in place, or is ended: on an
  -- error none is left.
  pub instalar_providers-em_uso :
      (q : Protocolo) (c : ConfigIniciar F) (e : EndpointConfig)
      → abertos [] (instalar_providers ord amb q c e).0
        ≡ em_uso (instalar_providers ord amb q c e).1
  unfolding instalar_providers
  instalar_providers-em_uso http c e = criar-em_uso c _ _
  instalar_providers-em_uso grpc c e = criar-em_uso c _ _
  instalar_providers-em_uso nao_dito c e = refl
  instalar_providers-em_uso auto c e = refl
  instalar_providers-em_uso (desconhecido p) c e = refl

module _ {F : Type 0} (ord : Fracoes F) (amb : AmbienteOtel F) (u : Unicode)
    (parse : Texto → Option Url) (tem_porta : Texto → Bool) (juntar : Texto → Texto → Texto) where
  -- Providers put in place at an end of `Iniciar`, or by the goroutine that it leaves waiting, on a tick.
  abbrev pub Poe : Inicio F → ConfigIniciar F → Providers F → Type 0
  Poe fim c p =
      (fim ≡ ligada p)
      ⊎ ((e : EndpointConfig) × (fim ≡ em_espera e)
          × ((instalar ord amb u parse tem_porta juntar c e).1 ≡ instalada p))

  -- The address they export to is one that `resolveEndpoint` accepts of the configuration.
  abbrev pub Exportado : ConfigIniciar F → Providers F → Type 0
  Exportado c p =
      (e : EndpointConfig) × (resolve_endpoint u parse c.config ≡ resolvido e)
      × Exporta amb.insegura e p

-- ===== src/Observabilidade/Exportador.antt =====
-- observabilidade/exportador.go: what of a span is exported, observabilidade/tenant.go: the attributes of the
-- tenant, and `redigirAtributosDeURL` of observabilidade/redacao.go. `redigir` is `redigirTexto`.
use deelp_pkg.Texto.{Texto, codes, eq_texto}
use deelp_pkg.Auth.Claims.{Contexto}
use deelp_pkg.Auth.Contexto.{usuario_id_do_contexto, empresa_id_do_contexto}
pub mod Laws
use deelp_pkg.Prelude.{
  [], ◌∷◌, String, true, false, none, some, ◌||◌, Bool, List, Option, if◌then◌else◌, map, ◌++◌, not,
}

-- A text, or a value of another type.
pub data ValorAtributo : Type 0 where
  texto : Texto → ValorAtributo
  outro : ValorAtributo

pub record KeyValue : Type 0 where
  pub key : Texto
  pub value : ValorAtributo

abbrev uma_de : List String → Texto → Bool
uma_de [] k = false
uma_de (n ∷ ns) k = eq_texto k (codes n) || uma_de ns k

-- `atributosDePessoa` and `atributosDeURL`.
unfoldable pub atributo_de_pessoa : Texto → Bool
atributo_de_pessoa = uma_de (
    "client.address" ∷ "user_agent.original" ∷ "network.peer.address" ∷ "network.peer.port"
    ∷ "http.request.method_original" ∷ [])

unfoldable pub atributo_de_url : Texto → Bool
atributo_de_url = uma_de ("url.path" ∷ "http.target" ∷ "url.full" ∷ "http.url" ∷ "url.query" ∷ [])

-- `AtributosTenant`.
abbrev do_id : {Uuid : Type 0} → (Uuid → Texto) → Texto → Option Uuid → List KeyValue
do_id escrito chave none = []
do_id escrito chave (some id) = record { key = chave; value = texto (escrito id) } ∷ []

unfoldable pub atributos_tenant :
    {Uuid : Type 0} → (Texto → Option Uuid) → (Uuid → Texto) → Contexto → List KeyValue
atributos_tenant parse escrito ctx =
    do_id escrito (codes "deelp.empresa_id") (empresa_id_do_contexto parse ctx)
    ++ do_id escrito (codes "deelp.usuario_id") (usuario_id_do_contexto parse ctx)

module _ (limpar : Texto → Texto) where
  abbrev pub limpo : Texto → ValorAtributo → ValorAtributo
  limpo k outro = outro
  limpo k (texto t) = if atributo_de_url k then texto (limpar t) else texto t

  -- `Attributes`; `limpar` is `sanitizarURL`.
  unfoldable pub attributes : List KeyValue → List KeyValue
  attributes [] = []
  attributes (kv ∷ kvs) =
      let resto = attributes kvs in
      if atributo_de_pessoa kv.key
      then resto
      else record kv { value = limpo kv.key kv.value } ∷ resto

-- `Events` and `Status`.
pub record Event : Type 0 where
  pub nome : Texto
  pub atributos : List KeyValue

module _ (redigir : Texto → Texto) where
  abbrev pub redigido : Texto → ValorAtributo → ValorAtributo
  redigido k outro = outro
  redigido k (texto t) =
      if eq_texto k (codes "exception.message") then texto (redigir t) else texto t

  abbrev pub sem_excecao : KeyValue → KeyValue
  sem_excecao kv = record kv { value = redigido kv.key kv.value }

  abbrev pub evento_redigido : Event → Event
  evento_redigido e = record e { atributos = map sem_excecao e.atributos }

  unfoldable pub events : List Event → List Event
  events es = map evento_redigido es

  unfoldable pub descricao : Texto → Texto
  descricao d = redigir d

-- A span, as its methods answer; `links` are the attributes of each link, `demais` what it has else (its
-- context and its parent, its kind, instants and counts, and the code of its status).
pub record Span (R : Type 0) : Type 0 where
  pub nome : Texto
  pub atributos : List KeyValue
  pub eventos : List Event
  pub links : List (List KeyValue)
  pub recurso : List KeyValue
  pub status : Texto
  pub demais : R

-- `spanRedigido`, whose other methods are those of the span inside, and `ExportSpans`.
module _ (limpar redigir : Texto → Texto) {R : Type 0} where
  abbrev pub span_redigido : Span R → Span R
  span_redigido s = record s {
    atributos = attributes limpar s.atributos;
    eventos = events redigir s.eventos;
    status = descricao redigir s.status;
  }

  unfoldable pub export_spans : {A : Type 0} → (List (Span R) → A) → List (Span R) → A
  export_spans exportar spans = exportar (map span_redigido spans)

-- `redigirAtributosDeURL`, `OnStart` of `processadorTenant` and `MarcarTenant`; `set_attributes` is the span's.
pub data SpanKind : Type 0 where
  servidor cliente interno : SpanKind

module _ (set_attributes : List KeyValue → List KeyValue → List KeyValue) where
  abbrev de_borda : SpanKind → Bool
  de_borda servidor = true
  de_borda cliente = true
  de_borda interno = false

  abbrev redigir_um : (Texto → Texto) → KeyValue → List KeyValue → List KeyValue
  redigir_um limpar kv span = elim kv.value [
    | outro ↦ span
    | texto t ↦
        if not (atributo_de_url kv.key) || eq_texto (limpar t) t
        then span
        else set_attributes span (record { key = kv.key; value = texto (limpar t) } ∷ [])
  ]

  abbrev redigir_cada : (Texto → Texto) → List KeyValue → List KeyValue → List KeyValue
  redigir_cada limpar [] span = span
  redigir_cada limpar (kv ∷ kvs) span = redigir_cada limpar kvs (redigir_um limpar kv span)

  unfoldable pub redigir_atributos_de_url :
      (Texto → Texto) → SpanKind → List KeyValue → List KeyValue
  redigir_atributos_de_url limpar kind span =
      if not (de_borda kind) then span else redigir_cada limpar span span

  abbrev com_atributos : List KeyValue → List KeyValue → List KeyValue
  com_atributos span [] = span
  com_atributos span (kv ∷ kvs) = set_attributes span (kv ∷ kvs)

  unfoldable pub on_start :
      {Uuid : Type 0}
      → (Texto → Option Uuid)
      → (Uuid → Texto)
      → (Texto → Texto)
      → Contexto
      → SpanKind
      → List KeyValue
      → List KeyValue
  on_start parse escrito limpar ctx kind span =
      com_atributos (redigir_atributos_de_url limpar kind span) (atributos_tenant parse escrito ctx)

  unfoldable pub marcar_tenant :
      {Uuid : Type 0}
      → (Texto → Option Uuid)
      → (Uuid → Texto)
      → Contexto
      → List KeyValue
      → List KeyValue
  marcar_tenant parse escrito ctx span = com_atributos span (atributos_tenant parse escrito ctx)

-- ===== src/Observabilidade/Exportador/Laws.antt =====
-- What leaves with the spans that observabilidade/exportador.go exports.
use deelp_pkg.Texto.{Texto, Unicode, codes, eq_texto}
use deelp_pkg.Observabilidade.Redacao.{Letras, sanitizar_url}
use deelp_pkg.Observabilidade.Redacao.Mensagem.{redigir_texto}
use deelp_pkg.Observabilidade.Redacao.Numeros.{seguro}
use deelp_pkg.Observabilidade.Redacao.Redigida.{redigir_texto-seguro}
use deelp_pkg.Observabilidade.Exportador.{
  ValorAtributo, KeyValue, Event, Span, texto, outro, atributo_de_pessoa, atributo_de_url, limpo,
  attributes, events, descricao, redigido, sem_excecao, evento_redigido, span_redigido,
  export_spans,
}
use deelp_pkg.Prelude.{
  [], ◌∷◌, true, false, inl, inr, List, Bool, ◌≡◌, map, Bool-cases, refl, ◌⊎◌, Option, keep, not,
}

-- Two lists of one length, their entries related place by place.
abbrev pub Correspondem : {A : Type 0} → (A → A → Type 0) → List A → List A → Type 0
Correspondem P [] [] = Unit
Correspondem P [] (y ∷ ys) = ⊥
Correspondem P (x ∷ xs) [] = ⊥
Correspondem P (x ∷ xs) (y ∷ ys) = P x y × Correspondem P xs ys

-- A value as it leaves: a text that is to be changed is what `f` makes of it, any other value as it was.
abbrev pub Mudado : (Texto → Texto) → Bool → ValorAtributo → ValorAtributo → Type 0
Mudado f muda v w =
    ((t : Texto) × (muda ≡ true) × (v ≡ texto t) × (w ≡ texto (f t)))
    ⊎ (((muda ≡ false) ⊎ (v ≡ outro)) × (w ≡ v))

-- An attribute of the span: not of a person, and changed if it is of an address.
abbrev pub AtributoLimpo : (Texto → Texto) → KeyValue → KeyValue → Type 0
AtributoLimpo limpar a b =
    (b.key ≡ a.key)
    × (atributo_de_pessoa b.key ≡ false)
    × Mudado limpar (atributo_de_url a.key) a.value b.value

-- An attribute of an event, changed if it is the message of an exception.
abbrev pub AtributoDeEvento : (Texto → Texto) → KeyValue → KeyValue → Type 0
AtributoDeEvento redigir a b =
    (b.key ≡ a.key) × Mudado redigir (eq_texto a.key (codes "exception.message")) a.value b.value

abbrev pub EventoRedigido : (Texto → Texto) → Event → Event → Type 0
EventoRedigido redigir e f =
    (f.nome ≡ e.nome) × Correspondem (AtributoDeEvento redigir) e.atributos f.atributos

-- A span and what is exported of it.
abbrev pub Redigido : (limpar redigir : Texto → Texto) → {R : Type 0} → Span R → Span R → Type 0
Redigido limpar redigir s x =
    Correspondem (AtributoLimpo limpar) (keep (λ a. not (atributo_de_pessoa a.key)) s.atributos)
      x.atributos
    × Correspondem (EventoRedigido redigir) s.eventos x.eventos
    × (x.status ≡ redigir s.status)
    × (x.nome ≡ s.nome)
    × (x.links ≡ s.links)
    × (x.recurso ≡ s.recurso)
    × (x.demais ≡ s.demais)

module _ (limpar : Texto → Texto) where
  limpo-Mudado :
      (k : Texto) (v : ValorAtributo) → Mudado limpar (atributo_de_url k) v (limpo limpar k v)
  limpo-Mudado k outro = inr (inr refl, refl)
  limpo-Mudado k (texto t) = elim (Bool-cases (atributo_de_url k)) [
    | inl e ↦ rw e (inl (t, refl, refl, refl))
    | inr e ↦ rw e (inr (inl refl, refl))
  ]

  attributes-Correspondem :
      (kvs : List KeyValue)
      → Correspondem
          (AtributoLimpo limpar)
          (keep (λ a. not (atributo_de_pessoa a.key)) kvs)
          (attributes limpar kvs)
  unfolding attributes
  attributes-Correspondem [] = tt
  attributes-Correspondem (kv ∷ kvs) = elim (Bool-cases (atributo_de_pessoa kv.key)) [
    | inl e ↦ rw e (attributes-Correspondem kvs)
    | inr e ↦ rw e ((refl, e, limpo-Mudado kv.key kv.value), attributes-Correspondem kvs)
  ]

module _ (redigir : Texto → Texto) where
  redigido-Mudado :
      (k : Texto) (v : ValorAtributo)
      → Mudado redigir (eq_texto k (codes "exception.message")) v (redigido redigir k v)
  redigido-Mudado k outro = inr (inr refl, refl)
  redigido-Mudado k (texto t) = elim (Bool-cases (eq_texto k (codes "exception.message"))) [
    | inl e ↦ rw e (inl (t, refl, refl, refl))
    | inr e ↦ rw e (inr (inl refl, refl))
  ]

  sem_excecao-Correspondem :
      (kvs : List KeyValue)
      → Correspondem (AtributoDeEvento redigir) kvs (map (sem_excecao redigir) kvs)
  sem_excecao-Correspondem [] = tt
  sem_excecao-Correspondem (kv ∷ kvs) =
      ((refl, redigido-Mudado kv.key kv.value), sem_excecao-Correspondem kvs)

  evento_redigido-Correspondem :
      (es : List Event)
      → Correspondem (EventoRedigido redigir) es (map (evento_redigido redigir) es)
  evento_redigido-Correspondem [] = tt
  evento_redigido-Correspondem (e ∷ es) =
      ((refl, sem_excecao-Correspondem e.atributos), evento_redigido-Correspondem es)

span_redigido-Correspondem :
    (limpar redigir : Texto → Texto) {R : Type 0} (spans : List (Span R))
    → Correspondem (Redigido limpar redigir) spans (map (span_redigido limpar redigir) spans)
unfolding events descricao
span_redigido-Correspondem limpar redigir [] = tt
span_redigido-Correspondem limpar redigir (s ∷ spans) = (
  (
    attributes-Correspondem limpar s.atributos,
    evento_redigido-Correspondem redigir s.eventos,
    refl,
    refl,
    refl,
    refl,
    refl,
  ),
  span_redigido-Correspondem limpar redigir spans,
)

-- `ExportSpans` gives the exporter inside one span for each of its own, in their order. Of the attributes of the
-- span itself those of a person are left out, the texts of addresses are as `sanitizarURL` makes them, and the
-- others as they were; of the attributes of its events only the text of an exception's message is changed, as
-- `redigirTexto` makes it, and so is the description of the status. Name, links, resource and all else are as
-- they were. No text that `redigirTexto` makes has ten digits in a row.
pub export_spans-Redigido :
    (u : Unicode) (l : Letras) (absoluta : (Texto → Texto) → Texto → Option Texto) {R A : Type 0}
    (exportar : List (Span R) → A) (spans : List (Span R))
    → ((saida : List (Span R)) × (export_spans
            (sanitizar_url u l absoluta)
            (redigir_texto u l)
            exportar
            spans
          ≡ exportar saida)
        × Correspondem (Redigido (sanitizar_url u l absoluta) (redigir_texto u l)) spans saida)
      × ((t : Texto) → seguro 0 (redigir_texto u l t) ≡ true)
unfolding export_spans
export_spans-Redigido u l absoluta exportar spans = (
  (
    map (span_redigido (sanitizar_url u l absoluta) (redigir_texto u l)) spans,
    refl,
    span_redigido-Correspondem (sanitizar_url u l absoluta) (redigir_texto u l) spans,
  ),
  redigir_texto-seguro u l,
)

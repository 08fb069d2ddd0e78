-- ===== src/Observabilidade/Etapa.antt =====
-- observabilidade/negocio.go, tracing.go: the steps of a flow and the message that an error leaves in a span;
-- mensageria/consumo.go: the processing of a message. `redigir` is the redaction of free text.
pub mod Laws
use deelp_pkg.Texto.{Texto, codes, eq_texto}
use deelp_pkg.Observabilidade.Requisicao.{resultado_de}
use deelp_pkg.Prelude.{
  true, false, none, some, ◌||◌, Bool, Option, if◌then◌else◌, ℕ, ltb, not, ◌++◌, take, length,
}

-- `limiteMensagemSpan`, in runes.
abbrev pub limite_mensagem_span : ℕ
limite_mensagem_span = 200

-- `erroTruncado`.
unfoldable pub erro_truncado : Texto → Texto
erro_truncado mensagem =
    if ltb limite_mensagem_span (length mensagem)
    then take limite_mensagem_span mensagem ++ codes "…"
    else mensagem

-- `ErroDeMensagem`.
unfoldable pub erro_de_mensagem : (Texto → Texto) → Texto → Texto
erro_de_mensagem redigir mensagem = erro_truncado (redigir mensagem)

-- `FinalizarSpanErr`: the message that the span keeps, if there is an error.
unfoldable pub finalizar_span_err : (Texto → Texto) → Option Texto → Option Texto
finalizar_span_err redigir none = none
finalizar_span_err redigir (some msg) =
    let limpo = redigir msg in
    some (
      if not (eq_texto limpo msg) || ltb limite_mensagem_span (length msg)
      then erro_truncado limpo
      else msg)

-- How the code that is measured ends: with an error or none, or in a panic.
pub data FimDaEtapa (P : Type 0) : Type 0 where
  retornou : Option Texto → FimDaEtapa P
  em_panico : P → FimDaEtapa P

-- What is left of it: the result that the histogram records, the span's error, and how the caller sees it end.
pub record Medicao (P : Type 0) : Type 0 where
  pub resultado : Texto
  pub erro_no_span : Option Texto
  pub fim : FimDaEtapa P

abbrev falhou : {P : Type 0} → FimDaEtapa P → Bool
falhou (retornou none) = false
falhou (retornou (some e)) = true
falhou (em_panico p) = true

-- The error that is recorded; `texto_do_panico` prints the value of a panic.
abbrev erro_da_etapa : {P : Type 0} → (P → Texto) → FimDaEtapa P → Option Texto
erro_da_etapa texto_do_panico (retornou e) = e
erro_da_etapa texto_do_panico (em_panico p) = some (codes "panic: " ++ texto_do_panico p)

-- `MedirEtapa`.
unfoldable pub medir_etapa : {P : Type 0} → (Texto → Texto) → (P → Texto) → FimDaEtapa P → Medicao P
medir_etapa redigir texto_do_panico fim = record {
  resultado = resultado_de (falhou fim);
  erro_no_span = finalizar_span_err redigir (erro_da_etapa texto_do_panico fim);
  fim = fim;
}

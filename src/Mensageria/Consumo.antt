-- ===== src/Mensageria/Consumo.antt =====
-- mensageria/consumo.go: the processing of a message, and what its headers hold. The carrier's headers are a
-- list of names and values; `redigir` is the redaction of free text.
use deelp_pkg.Texto.{Texto, codes, eq_texto}
use deelp_pkg.Prelude.{
  [], ◌∷◌, none, some, List, Option, if◌then◌else◌, ℤ, pos, map, true, false, Bool, ℕ, ◌+ℤ◌, negsuc,
  leb_ℤ, ◌^◌, ◌-◌,
}
use deelp_pkg.Observabilidade.Etapa.{FimDaEtapa, Medicao, medir_etapa}

-- The values of a header that the package reads: a string, an integer of 32 or 64 bits or of the machine, or
-- anything else.
pub data Cabecalho : Type 0 where
  cadeia : Texto → Cabecalho
  inteiro32 inteiro64 inteiro : ℤ → Cabecalho
  outro : Cabecalho

abbrev pub Table : Type 0
Table = List (Texto × Cabecalho)

unfoldable pub cabecalho : Table → Texto → Option Cabecalho
cabecalho [] chave = none
cabecalho ((nome, v) ∷ resto) chave = if eq_texto nome chave then some v else cabecalho resto chave

-- `CarrierAMQP.Get`, `Set` and `Keys`.
unfoldable pub get : Table → Texto → Texto
get c chave = elim (cabecalho c chave) [ some (cadeia s) ↦ s | _ ↦ [] ]

unfoldable pub set : Table → Texto → Texto → Table
set [] chave valor = (chave, cadeia valor) ∷ []
set ((nome, v) ∷ resto) chave valor =
    let depois = set resto chave valor in
    if eq_texto nome chave then (nome, cadeia valor) ∷ resto else (nome, v) ∷ depois

unfoldable pub keys : Table → List Texto
keys c = map (λ p. p.0) c

-- `tentativaDe`.
unfoldable pub tentativa_de : Table → ℤ
tentativa_de h = elim (cabecalho h (codes "x-tentativas")) [
  | some (inteiro32 v) ↦ v
  | some (inteiro64 v) ↦ v
  | some (inteiro v) ↦ v
  | _ ↦ pos 0
]

-- The next of an `int`, of 64 bits: after the largest comes the least.
abbrev pub seguinte : ℤ → ℤ
seguinte v = if leb_ℤ (pos (2 ^ 63 - 1)) v then negsuc (2 ^ 63 - 1) else v +ℤ pos 1

-- What `ProcessarMensagem` leaves: the attempt that the span names, whether the time in the queue is recorded,
-- and the rest as `MedirEtapa` does.
pub record Processada (P : Type 0) : Type 0 where
  pub message_id : Texto
  pub tentativa : ℤ
  pub com_latencia : Bool
  pub medicao : Medicao P

-- `ProcessarMensagem`: `ts` is the instant of the publication, if it has one; `fim` how the handler ends.
unfoldable pub processar_mensagem :
    {P : Type 0}
    → (Texto → Texto)
    → (P → Texto)
    → Table
    → Texto
    → Option ℕ
    → FimDaEtapa P
    → Processada P
processar_mensagem redigir texto_do_panico headers message_id ts fim = record {
  message_id = redigir message_id;
  tentativa = seguinte (tentativa_de headers);
  com_latencia = elim ts [ none ↦ false | some t ↦ true ];
  medicao = medir_etapa redigir texto_do_panico fim;
}

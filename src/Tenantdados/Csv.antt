-- ===== src/Tenantdados/Csv.antt =====
-- tenantdados/core/csv.go: the CSV of a source, with the part of encoding/csv that it calls, at the
-- separator `;` and with line ends as they are. A text of bytes is valid UTF-8.
pub mod RoundTrip
use deelp_pkg.Texto.{Texto, codes, eq_texto, is_space, vazio}
use deelp_pkg.Prelude.{
  [], ◌∷◌, true, false, none, some, ◌||◌, ◌==◌, Bool, List, Option, if◌then◌else◌, ℕ, ltb, ◌++◌,
  any, ◌+◌, ◌/◌, ◌%◌,
}

-- UTF-8, the bytes of a text.
unfoldable pub utf8_rune : ℕ → List ℕ
utf8_rune c =
    if ltb c 128
    then c ∷ []
    else if ltb c 2048
    then (192 + c / 64) ∷ (128 + c % 64) ∷ []
    else if ltb c 65536
    then (224 + c / 4096) ∷ (128 + c / 64 % 64) ∷ (128 + c % 64) ∷ []
    else (240 + c / 262144) ∷ (128 + c / 4096 % 64) ∷ (128 + c / 64 % 64) ∷ (128 + c % 64) ∷ []

unfoldable pub utf8 : Texto → List ℕ
utf8 [] = []
utf8 (c ∷ s) = utf8_rune c ++ utf8 s

abbrev pub bom_utf8 : List ℕ
bom_utf8 = 0xEF ∷ 0xBB ∷ 0xBF ∷ []

-- A value of a cell, by its type. An instant has its text in RFC 3339, a UUID its text, and any other value
-- what `fmt.Sprint` writes.
pub data Valor : Type 0 where
  nulo : Valor
  bytes texto : Texto → Valor
  tempo : Texto → Valor
  ponteiro_de_tempo : Option Texto → Valor
  uuid : Texto → Valor
  outro : Texto → Valor

-- `valorCSV`.
unfoldable pub valor_csv : Valor → Texto
valor_csv nulo = []
valor_csv (bytes t) = t
valor_csv (texto t) = t
valor_csv (tempo t) = t
valor_csv (ponteiro_de_tempo none) = []
valor_csv (ponteiro_de_tempo (some t)) = t
valor_csv (uuid t) = t
valor_csv (outro t) = t

-- `fieldNeedsQuotes` of encoding/csv.
abbrev pub especial : ℕ → Bool
especial c = c == 10 || c == 13 || c == b'"' || c == b';'

abbrev comeca_por_espaco : Texto → Bool
comeca_por_espaco [] = false
comeca_por_espaco (c ∷ s) = is_space c

unfoldable pub precisa_aspas : Texto → Bool
precisa_aspas campo =
    if vazio campo
    then false
    else if eq_texto campo (92 ∷ 46 ∷ [])
    then true
    else any especial campo || comeca_por_espaco campo

-- `Write` of encoding/csv: quotes are doubled inside quotes.
unfoldable pub dobrar_aspas : Texto → Texto
dobrar_aspas [] = []
dobrar_aspas (c ∷ s) = let resto = dobrar_aspas s in if c == b'"' then c ∷ c ∷ resto else c ∷ resto

unfoldable pub escrever_campo : Texto → Texto
escrever_campo campo =
    if precisa_aspas campo then b'"' ∷ (dobrar_aspas campo ++ b'"' ∷ []) else campo

unfoldable pub escrever_demais : List Texto → Texto
escrever_demais [] = 10 ∷ []
escrever_demais (campo ∷ cs) = b';' ∷ (escrever_campo campo ++ escrever_demais cs)

unfoldable pub escrever_registro : List Texto → Texto
escrever_registro [] = 10 ∷ []
escrever_registro (campo ∷ cs) = escrever_campo campo ++ escrever_demais cs

-- The loop over the columns: a row shorter than the columns is an index out of range.
unfoldable pub registro : List Texto → List Valor → Option (List Texto)
registro [] linha = some []
registro (k ∷ colunas) [] = none
registro (k ∷ colunas) (v ∷ linha) = elim (registro colunas linha) [
  | none ↦ none
  | some r ↦ some (valor_csv v ∷ r)
]

-- The loop over the rows.
unfoldable pub escrever_linhas : List Texto → List (List Valor) → Option Texto
escrever_linhas colunas [] = some []
escrever_linhas colunas (linha ∷ ls) =
    let resto = escrever_linhas colunas ls in
    elim (registro colunas linha) [
      | none ↦ none
      | some r ↦ elim resto [ none ↦ none | some t ↦ some (escrever_registro r ++ t) ]
    ]

-- `MontarCSV`; a buffer in memory has no write error, and `none` is the panic of a short row.
unfoldable pub montar_csv : List Texto → List (List Valor) → Option (List ℕ)
montar_csv colunas linhas = elim (escrever_linhas colunas linhas) [
  | none ↦ none
  | some t ↦ some (bom_utf8 ++ utf8 (escrever_registro colunas ++ t))
]

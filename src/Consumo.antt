-- ===== src/Consumo.antt =====
-- consumo/consumo.go: the month of a count and its interval. An instant is its date and the nanosecond of the
-- day, in the server's zone; the texts of instants are left out.
pub mod Laws
use deelp_pkg.Texto.{Texto, is_ascii_digit}
use deelp_pkg.Prelude.{
  [], ◌∷◌, true, false, none, some, suc, ◌&&◌, ◌==◌, Bool, Option, ℕ, ◌/◌, if◌then◌else◌, ◌+◌, ◌-◌,
  all, leb, ltb, ◌%◌, ◌*◌,
}

pub record Instante : Type 0 where
  pub ano : ℕ
  pub mes : ℕ
  pub dia : ℕ
  pub hora : ℕ

-- `t.Before(u)`.
abbrev pub antes : Instante → Instante → Bool
antes t u =
    if ltb t.ano u.ano
    then true
    else if ltb u.ano t.ano
    then false
    else if ltb t.mes u.mes
    then true
    else if ltb u.mes t.mes
    then false
    else if ltb t.dia u.dia
    then true
    else if ltb u.dia t.dia
    then false
    else ltb t.hora u.hora

abbrev pub digito : ℕ → ℕ
digito n = b'0' + n % 10

-- `CompetenciaDe`, of a year of four digits.
unfoldable pub competencia_de : Instante → Texto
competencia_de t =
    digito (t.ano / 1000)
    ∷ digito (t.ano / 100)
    ∷ digito (t.ano / 10)
    ∷ digito t.ano
    ∷ b'-'
    ∷ digito (t.mes / 10)
    ∷ digito t.mes
    ∷ []

abbrev pub valor : ℕ → ℕ
valor c = c - b'0'

-- time.Parse at `2006-01`: the year and the month.
abbrev pub mes_valido : ℕ → ℕ → Option (ℕ × ℕ)
mes_valido ano mes = if leb 1 mes && leb mes 12 then some (ano, mes) else none

unfoldable pub ler_competencia : Texto → Option (ℕ × ℕ)
ler_competencia (a ∷ b ∷ c ∷ d ∷ t ∷ m ∷ n ∷ []) =
    if all is_ascii_digit (a ∷ b ∷ c ∷ d ∷ m ∷ n ∷ []) && t == b'-'
    then mes_valido (valor a * 1000 + valor b * 100 + valor c * 10 + valor d)
        (valor m * 10 + valor n)
    else none
ler_competencia _ = none

-- `Valida`.
unfoldable pub competencia_valida : Texto → Bool
competencia_valida c = elim (ler_competencia c) [ none ↦ false | some p ↦ true ]

abbrev pub inicio_do_mes : ℕ → ℕ → Instante
inicio_do_mes ano mes = record { ano = ano; mes = mes; dia = 1; hora = 0 }

-- The first instant of the month after.
abbrev pub mes_seguinte : ℕ → ℕ → Instante
mes_seguinte ano mes = if mes == 12 then inicio_do_mes (suc ano) 1 else inicio_do_mes ano (suc mes)

abbrev do_mes : Option (ℕ × ℕ) → Option (Instante × Instante)
do_mes none = none
do_mes (some (ano, mes)) = some (inicio_do_mes ano mes, mes_seguinte ano mes)

-- `Intervalo`.
unfoldable pub intervalo : Texto → Option (Instante × Instante)
unfolding ler_competencia
intervalo c = do_mes (ler_competencia c)

-- ===== src/Consumo/Laws.antt =====
-- Which instants a month of a count has.
use deelp_pkg.Texto.{is_ascii_digit}
use deelp_pkg.Consumo.{
  Instante, antes, digito, valor, competencia_de, ler_competencia, mes_valido, inicio_do_mes,
  mes_seguinte, intervalo,
}
use deelp_pkg.Prelude.{
  some, true, false, ℕ, ◌≡◌, ◌≤◌, arith, ◌%◌, ◌/◌, ◌*◌, ◌+◌, inl, inr, refl, ◌==◌, ◌↔◌, Bool-cases,
}

-- A date of a year of four digits.
pub record IsData (t : Instante) : Type 0 where
  pub ano_curto : t.ano ≤ 9999
  pub mes_um : 1 ≤ t.mes
  pub mes_doze : t.mes ≤ 12
  pub dia_um : 1 ≤ t.dia

digito-IsDigit : (n : ℕ) → is_ascii_digit (digito n) ≡ true
digito-IsDigit n = ground arith

valor-digito : (n : ℕ) → valor (digito n) ≡ n % 10
valor-digito n = omega arith

quatro :
    (n : ℕ)
    → n ≤ 9999
    → valor (digito (n / 1000)) * 1000
        + valor (digito (n / 100)) * 100
        + valor (digito (n / 10)) * 10
        + valor (digito n)
      ≡ n
quatro n h = omega arith

dois : (n : ℕ) → n ≤ 12 → valor (digito (n / 10)) * 10 + valor (digito n) ≡ n
dois n h = omega arith

mes_valido-some : (a m : ℕ) → 1 ≤ m → m ≤ 12 → mes_valido a m ≡ some (a, m)
mes_valido-some a m h k = ground arith

ler-competencia_de :
    (t : Instante) → IsData t → ler_competencia (competencia_de t) ≡ some (t.ano, t.mes)
unfolding ler_competencia competencia_de
ler-competencia_de t h =
    rw
      (
        digito-IsDigit (t.ano / 1000),
        digito-IsDigit (t.ano / 100),
        digito-IsDigit (t.ano / 10),
        digito-IsDigit t.ano,
        digito-IsDigit (t.mes / 10),
        digito-IsDigit t.mes,
        quatro t.ano h.ano_curto,
        dois t.mes h.mes_doze,
      )
      (mes_valido-some t.ano t.mes h.mes_um h.mes_doze)

-- From the first of the two instants, and before the second.
abbrev pub Entre : Instante × Instante → Instante → Type 0
Entre (inicio, fim) u = (antes u inicio ≡ false) × (antes u fim ≡ true)

do_mes-Entre :
    (ano mes : ℕ) (u : Instante)
    → mes ≤ 12
    → IsData u
    → Entre (inicio_do_mes ano mes, mes_seguinte ano mes) u ↔ ((u.ano ≡ ano) × (u.mes ≡ mes))
do_mes-Entre ano mes u h k =
    let a = k.mes_um in
    let b = k.mes_doze in
    let c = k.dia_um in
    elim (Bool-cases (mes == 12)) [
      | inl e ↦
          rw e (λ (p, q). (ground arith, ground arith), λ (p, q). (ground arith, ground arith))
      | inr e ↦
          rw e (λ (p, q). (ground arith, ground arith), λ (p, q). (ground arith, ground arith))
    ]

-- The month of a date of a year up to 9999 is read back, and its interval has exactly the instants of that
-- month: of the same year and month, the last instant of the last day among them.
pub intervalo-Entre :
    (t : Instante)
    → IsData t
    → (p : Instante × Instante) × (intervalo (competencia_de t) ≡ some p)
      × ((u : Instante) → IsData u → Entre p u ↔ ((u.ano ≡ t.ano) × (u.mes ≡ t.mes)))
unfolding intervalo
intervalo-Entre t h = (
  (inicio_do_mes t.ano t.mes, mes_seguinte t.ano t.mes),
  rw (ler-competencia_de t h) refl,
  λ u k. do_mes-Entre t.ano t.mes u h.mes_doze k,
)

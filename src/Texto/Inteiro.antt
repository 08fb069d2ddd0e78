-- ===== src/Texto/Inteiro.antt =====
-- `strconv.Atoi`, for an int of 64 bits.
use deelp_pkg.Texto.{Texto, vazio, is_ascii_digit}
use deelp_pkg.Prelude.{
  [], ◌∷◌, true, false, pos, negsuc, ◌&&◌, ◌==◌, Bool, if◌then◌else◌, ℕ, ℤ, leb, not, ◌*◌, all, ◌+◌,
  ◌^◌, ◌-◌, ltb,
}

abbrev pub valor_de : ℕ → Texto → ℕ
valor_de n [] = n
valor_de n (c ∷ s) = valor_de (10 * n + (c - b'0')) s

-- Digits, and at least one.
abbrev pub digitos : Texto → Bool
digitos s = not (vazio s) && all is_ascii_digit s

-- Its value, and its error: out of the 64 bits it is the nearest number, on any other text 0.
pub record Lido : Type 0 where
  pub valor : ℤ
  pub erro : Bool

abbrev pub com_sinal : Bool → ℕ → Lido
com_sinal true n =
    if leb n (2 ^ 63)
    then record { valor = if n == 0 then pos 0 else negsuc (n - 1); erro = false }
    else record { valor = negsuc (2 ^ 63 - 1); erro = true }
com_sinal false n =
    if ltb n (2 ^ 63)
    then record { valor = pos n; erro = false }
    else record { valor = pos (2 ^ 63 - 1); erro = true }

abbrev pub inteiro : Bool → Texto → Lido
inteiro negativo s =
    if digitos s then com_sinal negativo (valor_de 0 s) else record { valor = pos 0; erro = true }

unfoldable pub atoi : Texto → Lido
atoi [] = record { valor = pos 0; erro = true }
atoi (c ∷ s) =
    if c == b'-'
    then inteiro true s
    else if c == b'+'
    then inteiro false s
    else inteiro false (c ∷ s)

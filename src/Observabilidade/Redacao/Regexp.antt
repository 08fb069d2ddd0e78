-- ===== src/Observabilidade/Redacao/Regexp.antt =====
-- The regular expressions of observabilidade/redacao.go, as the package regexp runs them: the leftmost match,
-- the first choice first and as much as a star can take. Stars are of classes, so a match is by the text.
use deelp_pkg.Texto.{Texto, codes}
use deelp_pkg.Prelude.{
  [], ◌∷◌, false, none, some, ◌&&◌, ◌||◌, ◌==◌, Bool, Option, String, if◌then◌else◌, ℕ, leb, not,
  take, suc, ◌++◌, ◌-◌, ◌+◌, zero, any,
}

-- `um` is a class, `estrela` its repetition, `borda` is \b, `grupo` the group ${1}.
pub data Regexp : Type 0 where
  vazia : Regexp
  um : (ℕ → Bool) → Regexp
  estrela : (ℕ → Bool) → Regexp
  seq : Regexp → Regexp → Regexp
  ou : Regexp → Regexp → Regexp
  grupo : Regexp → Regexp
  borda : Regexp

-- A point of a match: the character before it, the text after it, how much was read, and the group.
pub data Ponto : Type 0 where
  ponto : Option ℕ → Texto → ℕ → Texto → Ponto

-- A match: how much it has read, and its group.
pub record Casou : Type 0 where
  pub lido : ℕ
  pub grupo : Texto

-- Classes.
abbrev pub entre : ℕ → ℕ → ℕ → Bool
entre a b c = leb a c && leb c b

abbrev pub digito : ℕ → Bool
digito = entre b'0' b'9'

abbrev pub letra : ℕ → Bool
letra c = entre b'a' b'z' c || entre b'A' b'Z' c

abbrev pub em : String → ℕ → Bool
em s c = any (λ d. d == c) (codes s)

-- \s, which is of ASCII.
abbrev pub espaco : ℕ → Bool
espaco c = c == 32 || c == 9 || c == 10 || c == 12 || c == 13

-- \w, at the two sides of \b.
abbrev de_palavra : ℕ → Bool
de_palavra c = digito c || letra c || c == b'_'

abbrev antes_de_palavra : Option ℕ → Bool
antes_de_palavra none = false
antes_de_palavra (some c) = de_palavra c

abbrev depois_de_palavra : Texto → Bool
depois_de_palavra [] = false
depois_de_palavra (c ∷ s) = de_palavra c

abbrev na_borda : Option ℕ → Texto → Bool
na_borda antes s =
    antes_de_palavra antes && not (depois_de_palavra s)
    || not (antes_de_palavra antes) && depois_de_palavra s

abbrev pub senao : {A : Type 0} → Option A → Option A → Option A
senao none o = o
senao (some a) o = some a

-- One character, and as many as there are, with what comes after.
abbrev pub casar_um : (ℕ → Bool) → (Ponto → Option Casou) → Ponto → Option Casou
casar_um p k (ponto antes [] n g) = none
casar_um p k (ponto antes (c ∷ s) n g) = if p c then k (ponto (some c) s (suc n) g) else none

abbrev pub casar_estrela :
    (ℕ → Bool) → (Ponto → Option Casou) → Option ℕ → Texto → ℕ → Texto → Option Casou
casar_estrela p k antes [] n g = k (ponto antes [] n g)
casar_estrela p k antes (c ∷ s) n g =
    let mais = casar_estrela p k (some c) s (suc n) g in
    let aqui = k (ponto antes (c ∷ s) n g) in if p c then senao mais aqui else aqui

abbrev em_estrela : (ℕ → Bool) → (Ponto → Option Casou) → Ponto → Option Casou
em_estrela p k (ponto antes s n g) = casar_estrela p k antes s n g

abbrev em_borda : (Ponto → Option Casou) → Ponto → Option Casou
em_borda k (ponto antes s n g) = if na_borda antes s then k (ponto antes s n g) else none

abbrev fecha_grupo : (Ponto → Option Casou) → Ponto → Ponto → Option Casou
fecha_grupo k (ponto a s n g) (ponto antes resto lido g') =
    k (ponto antes resto lido (take (lido - n) s))

unfoldable pub casar : Regexp → (Ponto → Option Casou) → Ponto → Option Casou
casar vazia k p = k p
casar (um f) k p = casar_um f k p
casar (estrela f) k p = em_estrela f k p
casar (seq a b) k p = casar a (casar b k) p
casar (ou a b) k p = senao (casar a k p) (casar b k p)
casar (grupo r) k p = casar r (fecha_grupo k p) p
casar borda k p = em_borda k p

abbrev pub fim : Ponto → Option Casou
fim (ponto antes s n g) = some (record { lido = n; grupo = g })

-- The match that begins here, after a character.
unfoldable pub casar_em : Regexp → Option ℕ → Texto → Option Casou
casar_em r antes s = casar r fim (ponto antes s 0 [])

-- `ReplaceAllString` and `ReplaceAllStringFunc`: `troca` gets the match and its group. The number is how much of
-- the last match is still to be skipped.
abbrev troca_ou : Texto → Texto → Option Casou → (Texto → Texto → Texto) → (ℕ → Texto) → Texto
troca_ou inteiro simples none troca segue = simples ++ segue 0
troca_ou inteiro simples (some m) troca segue =
    troca (take m.lido inteiro) m.grupo ++ segue (m.lido - 1)

unfoldable pub replace_all : Regexp → (Texto → Texto → Texto) → Option ℕ → ℕ → Texto → Texto
replace_all r troca antes pular [] = []
replace_all r troca antes (suc pular) (c ∷ s) = replace_all r troca (some c) pular s
replace_all r troca antes zero (c ∷ s) =
    troca_ou (c ∷ s) (c ∷ []) (casar_em r antes (c ∷ s)) troca
      (λ n. replace_all r troca (some c) n s)

-- Notation.
abbrev pub mais : (ℕ → Bool) → Regexp
mais p = seq (um p) (estrela p)

abbrev pub vezes : ℕ → (ℕ → Bool) → Regexp
vezes zero p = vazia
vezes (suc n) p = seq (um p) (vezes n p)

abbrev pub talvez : Regexp → Regexp
talvez r = ou r vazia

-- A text as it is, and under (?i), where s and k have a third form each.
abbrev pub literal : Texto → Regexp
literal [] = vazia
literal (c ∷ s) = seq (um (λ d. d == c)) (literal s)

abbrev minusculo : ℕ → ℕ
minusculo c =
    if entre b'A' b'Z' c then c + 32 else if c == 383 then b's' else if c == 8490 then b'k' else c

abbrev pub sem_caixa : Texto → Regexp
sem_caixa [] = vazia
sem_caixa (c ∷ s) = seq (um (λ d. minusculo d == c)) (sem_caixa s)

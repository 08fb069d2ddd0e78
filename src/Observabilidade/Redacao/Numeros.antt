-- ===== src/Observabilidade/Redacao/Numeros.antt =====
-- How many digits in a row the number's regular expression of observabilidade/redacao.go leaves.
use deelp_pkg.Texto.{Texto}
use deelp_pkg.Observabilidade.Redacao.Regexp.{
  Casou, Ponto, ponto, digito, fim, um, vezes, estrela, casar, casar_em, casar_estrela,
}
use deelp_pkg.Observabilidade.Redacao.Mensagem.{de_numero, texto_numero}
use deelp_pkg.Prelude.{
  [], ◌∷◌, true, false, none, some, ◌&&◌, ◌||◌, Bool, Option, if◌then◌else◌, ℕ, length, leb, ltb,
  drop, ◌++◌, ◌+◌, suc, zero, ◌≡◌, refl, all, inl, inr, Bool-cases, arith, ◌⊎◌,
}

-- No ten digits in a row, when so many stand before the text.
abbrev pub seguro : ℕ → Texto → Bool
seguro k [] = true
seguro k (c ∷ t) =
    let digitos = seguro (suc k) t in
    let outros = seguro 0 t in if digito c then ltb (suc k) 10 && digitos else outros

abbrev pub comeca_por_digito : Texto → Bool
comeca_por_digito [] = false
comeca_por_digito (c ∷ t) = digito c

-- What the expression looks for: a digit, eight characters of a number, and a digit among those that follow.
abbrev tem_digito : Texto → Bool
tem_digito [] = false
tem_digito (c ∷ s) = digito c || de_numero c && tem_digito s

abbrev apos_numero : ℕ → Texto → Bool
apos_numero zero s = tem_digito s
apos_numero (suc k) [] = false
apos_numero (suc k) (c ∷ s) = de_numero c && apos_numero k s

abbrev pub eh_numero : Texto → Bool
eh_numero [] = false
eh_numero (c ∷ s) = digito c && apos_numero 8 s

de_numero-digito : (c : ℕ) → digito c ≡ true → de_numero c ≡ true
de_numero-digito c h = rw h refl

-- An end after a digit: how much was read, and that no digit follows.
abbrev Termina : ℕ → Texto → Option Casou → Type 0
Termina n s o =
    (g : Casou) × (j : ℕ) × (o ≡ some g) × (g.lido ≡ n + j) × (comeca_por_digito (drop j s) ≡ false)

abbrev ultimo : Ponto → Option Casou
ultimo = casar (um digito) fim

comeca-tem_digito : (s : Texto) → tem_digito s ≡ false → comeca_por_digito s ≡ false
comeca-tem_digito [] h = refl
comeca-tem_digito (c ∷ s) h = ground (arith, h)

estrela_cases :
    (s : Texto) (antes : Option ℕ) (n : ℕ) (g : Texto)
    → ((tem_digito s ≡ true) × Termina n s (casar_estrela de_numero ultimo antes s n g))
      ⊎ ((tem_digito s ≡ false) × (casar_estrela de_numero ultimo antes s n g ≡ none))
unfolding casar
estrela_cases [] antes n g = inr (refl, refl)
estrela_cases (c ∷ s) antes n g = elim (Bool-cases (digito c)) [
  | inl d ↦ elim (estrela_cases s (some c) (suc n) g) [
    | inl (t, (m, j, e, l, f)) ↦ rw (d, e) (inl (refl, (m, suc j, refl, omega (arith, l), f)))
    | inr (t, e) ↦ rw (d, e) (inl (refl, (_, 1, refl, omega arith, comeca-tem_digito s t)))
  ]
  | inr d ↦ elim (Bool-cases (de_numero c)) [
    | inl p ↦ elim (estrela_cases s (some c) (suc n) g) [
      | inl (t, (m, j, e, l, f)) ↦ rw (p, d, e) (inl (t, (m, suc j, refl, omega (arith, l), f)))
      | inr (t, e) ↦ rw (p, d, e) (inr (t, refl))
    ]
    | inr p ↦ rw (p, d) (inr (refl, refl))
  ]
]

-- After `k` characters of a number, then as above.
numero_apos :
    (k : ℕ) (s : Texto) (antes : Option ℕ) (n : ℕ) (g : Texto)
    → ((apos_numero k s ≡ true)
        × Termina n s
            (casar (vezes k de_numero) (casar (estrela de_numero) ultimo) (ponto antes s n g)))
      ⊎ ((apos_numero k s ≡ false)
          × (casar (vezes k de_numero) (casar (estrela de_numero) ultimo) (ponto antes s n g)
              ≡ none))
unfolding casar
numero_apos zero s antes n g = estrela_cases s antes n g
numero_apos (suc k) [] antes n g = inr (refl, refl)
numero_apos (suc k) (c ∷ s) antes n g = elim (Bool-cases (de_numero c)) [
  | inl p ↦ elim (numero_apos k s (some c) (suc n) g) [
    | inl (t, (m, j, e, l, f)) ↦ rw (p, e) (inl (t, (m, suc j, refl, omega (arith, l), f)))
    | inr (t, e) ↦ rw (p, e) (inr (t, refl))
  ]
  | inr p ↦ rw p (inr (refl, refl))
]

-- The expression matches exactly where a number begins, and then no digit follows the match.
pub casar_em-texto_numero :
    (antes : Option ℕ) (s : Texto)
    → ((eh_numero s ≡ true)
        × (m : Casou) × (casar_em texto_numero antes s ≡ some m)
        × (j : ℕ) × (m.lido ≡ suc j)
        × (comeca_por_digito (drop (suc j) s) ≡ false))
      ⊎ ((eh_numero s ≡ false) × (casar_em texto_numero antes s ≡ none))
unfolding casar_em casar
casar_em-texto_numero antes [] = inr (refl, refl)
casar_em-texto_numero antes (c ∷ s) = elim (Bool-cases (digito c)) [
  | inl d ↦ elim (numero_apos 8 s (some c) 1 []) [
    | inl (t, (m, j, e, l, f)) ↦ rw (d) (inl (t, m, e, j, omega (arith, l), f))
    | inr (t, e) ↦ rw (d) (inr (t, e))
  ]
  | inr d ↦ rw d (inr (refl, refl))
]

-- A digit before a number begins one too, and so do nine digits or more.
apos_numero-cons :
    (k c : ℕ) (s : Texto)
    → de_numero c ≡ true
    → apos_numero k s ≡ true
    → apos_numero k (c ∷ s) ≡ true
apos_numero-cons zero c s p h = rw (p, h) (ground arith)
apos_numero-cons (suc k) c [] p h = absurd (ground (arith, h))
apos_numero-cons (suc k) c (d ∷ s) p h = ground (arith, p, h, apos_numero-cons k d s)

apos_numero-digitos :
    (k : ℕ) (ds s : Texto)
    → all digito ds ≡ true
    → ltb k (length ds) ≡ true
    → apos_numero k (ds ++ s) ≡ true
apos_numero-digitos zero (d ∷ ds) s h l = ground (arith, h)
apos_numero-digitos (suc k) (d ∷ ds) s h l =
    ground (arith, h, l, de_numero-digito d, apos_numero-digitos k ds s)
apos_numero-digitos k [] s h l = absurd (ground (arith, l))

pub digitos-cons :
    (d : ℕ) (ds : Texto) → all digito (d ∷ ds) ≡ true → (digito d ≡ true) × (all digito ds ≡ true)
digitos-cons d ds h = (ground (arith, h), ground (arith, h))

eh_numero-cons :
    (d : ℕ) (t : Texto) → digito d ≡ true → eh_numero t ≡ true → eh_numero (d ∷ t) ≡ true
eh_numero-cons d [] a h = absurd (ground (arith, h))
eh_numero-cons d (c ∷ t) a h =
    rw a (apos_numero-cons 8 c t (de_numero-digito c (ground (arith, h))) (ground (arith, h)))

pub eh_numero-append :
    (ds t : Texto) → all digito ds ≡ true → eh_numero t ≡ true → eh_numero (ds ++ t) ≡ true
eh_numero-append [] t h e = e
eh_numero-append (d ∷ ds) t h e =
    let (a, b) = digitos-cons d ds h in eh_numero-cons d (ds ++ t) a (eh_numero-append ds t b e)

pub eh_numero-digitos :
    (ds t : Texto) → all digito ds ≡ true → leb 10 (length ds) ≡ true → eh_numero (ds ++ t) ≡ true
eh_numero-digitos [] t h l = absurd (ground (arith, l))
eh_numero-digitos (d ∷ ds) t h l =
    let (a, b) = digitos-cons d ds h in rw a (apos_numero-digitos 8 ds t b (ground (arith, l)))

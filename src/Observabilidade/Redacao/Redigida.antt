-- ===== src/Observabilidade/Redacao/Redigida.antt =====
-- The digits of a message that has passed `redigirTexto` of observabilidade/redacao.go.
use deelp_pkg.Texto.{Texto, Unicode, byte_len, eq_texto, has_prefix}
use deelp_pkg.Observabilidade.Redacao.{Letras, fields_func, segmento_sensivel}
use deelp_pkg.Observabilidade.Redacao.Regexp.{digito}
use deelp_pkg.Observabilidade.Redacao.Mensagem.{
  primeiro, replace, pares_de, fora_de_palavra, redigir_texto, sem_numeros, sem_credenciais,
}
use deelp_pkg.Observabilidade.Redacao.Numeros.{seguro}
use deelp_pkg.Observabilidade.Redacao.Digitos.{trocado-seguro}
use deelp_pkg.Prelude.{
  [], ◌∷◌, true, none, some, ◌&&◌, List, ℕ, length, leb, any, not, ◌++◌, ◌+◌, ◌-◌, suc, zero, ◌≡◌,
  ◌<◌, refl, all, inl, inr, Bool-cases, arith, ◌⊎◌, sym, ap, ◌∙◌,
}

seguro_menor : (j k : ℕ) (t : Texto) → leb j k ≡ true → seguro k t ≡ true → seguro j t ≡ true
seguro_menor j k [] l h = refl
seguro_menor j k (c ∷ t) l h = ground (arith, l, h, seguro_menor (suc j) (suc k) t)

seguro-zero : (k : ℕ) (t : Texto) → seguro k t ≡ true → seguro 0 t ≡ true
seguro-zero k t h = seguro_menor 0 k t (ground arith) h

seguro_tail : (k c : ℕ) (t : Texto) → seguro k (c ∷ t) ≡ true → seguro 0 t ≡ true
seguro_tail k c t h = elim (Bool-cases (digito c)) [
  | inl d ↦ seguro-zero (suc k) t (ground (arith, h, d))
  | inr d ↦ ground (arith, h, d)
]

-- Pairs whose new texts hold no digit, but are not empty.
abbrev SemDigitos : List (Texto × Texto) → Type 0
SemDigitos [] = Unit
SemDigitos ((velho, novo) ∷ ps) =
    ((k : ℕ) (x : Texto) → seguro k (novo ++ x) ≡ seguro 0 x) × SemDigitos ps

primeiro_cases :
    (s : Texto) (ps : List (Texto × Texto))
    → SemDigitos ps
    → (primeiro s ps ≡ none)
      ⊎ ((v : Texto) × (n : Texto) × (primeiro s ps ≡ some (v, n))
          × ((k : ℕ) (x : Texto) → seguro k (n ++ x) ≡ seguro 0 x))
primeiro_cases s [] h = inl refl
primeiro_cases s ((velho, novo) ∷ ps) (f, h) = elim (Bool-cases (has_prefix s velho)) [
  | inl e ↦ rw e (inr (velho, novo, refl, f))
  | inr e ↦ rw e (primeiro_cases s ps h)
]

-- A text of which every rest stays so after the replacements.
abbrev Preservado : List (Texto × Texto) → Texto → Type 0
Preservado ps t =
    (k : ℕ)
    → seguro k t ≡ true
    → (seguro k (replace ps 0 t) ≡ true) × ((n : ℕ) → seguro 0 (replace ps n t) ≡ true)

replace_aqui :
    (ps : List (Texto × Texto))
    → SemDigitos ps
    → (c : ℕ) (s : Texto) → Preservado ps s
    → (k : ℕ) → seguro k (c ∷ s) ≡ true
    → seguro k (replace ps 0 (c ∷ s)) ≡ true
unfolding replace
replace_aqui ps w c s ih k h = elim (primeiro_cases (c ∷ s) ps w) [
  | inl e ↦ rw e (ground (arith, h, ih (suc k), ih 0))
  | inr (v, n, e, f) ↦ rw (e, f k) ((ih 0 (seguro_tail k c s h)).1 (length v - 1))
]

replace-seguro : (ps : List (Texto × Texto)) → SemDigitos ps → (t : Texto) → Preservado ps t
unfolding replace
replace-seguro ps w [] k h = (refl, λ n. refl)
replace-seguro ps w (c ∷ s) k h =
    let ih = replace-seguro ps w s in
    let z = seguro-zero k (c ∷ s) h in
    (
      replace_aqui ps w c s ih k h,
      λ n. elim n as (λ m. seguro 0 (replace ps m (c ∷ s)) ≡ true) [
        | zero ↦ replace_aqui ps w c s ih 0 z
        | suc n ↦ (ih 0 (seguro_tail k c s h)).1 n
      ],
    )

pares_de-SemDigitos :
    (u : Unicode) (l : Letras) (vistos palavras : List Texto)
    → SemDigitos (pares_de u l vistos palavras)
pares_de-SemDigitos u l vistos [] = tt
pares_de-SemDigitos u l vistos (p ∷ ps) =
    elim (Bool-cases
      (leb 24 (byte_len p) && not (any (eq_texto p) vistos) && segmento_sensivel u l p)) [
        | inl e ↦ rw e (λ k x. refl, pares_de-SemDigitos u l (p ∷ vistos) ps)
        | inr e ↦ rw e (pares_de-SemDigitos u l vistos ps)
      ]

seguro_sufixo : (a x : Texto) (k : ℕ) → seguro k (a ++ x) ≡ true → seguro 0 x ≡ true
seguro_sufixo [] x k h = seguro-zero k x h
seguro_sufixo (c ∷ a) x k h = seguro_sufixo a x 0 (seguro_tail k c (a ++ x) h)

seguro-digitos :
    (b c : Texto) (k : ℕ)
    → k < 10
    → seguro k (b ++ c) ≡ true
    → all digito b ≡ true
    → k + length b < 10
seguro-digitos [] c k l h d = omega (arith, l)
seguro-digitos (x ∷ b) c k l h d = let i = seguro-digitos b c (suc k) in ground (arith, h, d, i)

pub redigir_texto-seguro :
    (u : Unicode) (l : Letras) (msg : Texto) → seguro 0 (redigir_texto u l msg) ≡ true
unfolding redigir_texto
redigir_texto-seguro u l msg =
    let m = sem_credenciais msg in
    let t : seguro 0 (sem_numeros m) ≡ true = (trocado-seguro m none).0 [] refl (inl refl) in
    let ps = pares_de u l [] (fields_func (fora_de_palavra u l) (sem_numeros m)) in
    (replace-seguro ps (pares_de-SemDigitos u l [] _) (sem_numeros m) 0 t).0

-- Any row of digits in a message that was made safe is shorter than ten, those of the addresses and dates that
-- are kept included.
pub redigir_texto-curtos :
    (u : Unicode) (l : Letras) (msg a b c : Texto)
    → redigir_texto u l msg ≡ a ++ (b ++ c)
    → all digito b ≡ true
    → length b < 10
redigir_texto-curtos u l msg a b c h d =
    let q : seguro 0 (a ++ (b ++ c)) ≡ true =
      sym (ap (seguro 0) h) ∙ redigir_texto-seguro u l msg in
    omega (arith, seguro-digitos b c 0 (omega arith) (seguro_sufixo a (b ++ c) 0 q) d)

-- ===== src/Arquitetura/Baseline.antt =====
-- The exit code of the command, and the baseline that it writes for itself.
use deelp_pkg.Texto.{Texto, codes, vazio, has_prefix, trim_space, split, eq_texto}
use deelp_pkg.Texto.Laws.{split-linha, eq_texto_refl, eq_texto→eq}
use deelp_pkg.Prelude.{
  [], ◌∷◌, true, false, inl, inr, refl, ◌||◌, ◌==◌, Bool, List, all, keep, map, not, All, ◌++◌, ◌≡◌,
  Bool-cases, arith, ◌↔◌, some, ◌&&◌, Option, Option-cases, if◌then◌else◌, sym, none_ne_some, ◌∙◌,
  some_inj, ℕ,
}
use deelp_pkg.Arquitetura.{Servico, Violacao, escrita, verificar}
use deelp_pkg.Arquitetura.Comando.{
  Saida, Leitura, contida, incluir, linhas_aceitas, ler_baseline, comparar, executar, nenhum, lido,
  listada, arquitetura_ok,
}
use deelp_pkg.Ordem.{ordenar, inserir}

-- What `fmt.Println` writes for the lines of a generated baseline.
abbrev pub impressa : List Saida → Texto
impressa [] = []
impressa (listada t ∷ ss) = t ++ (10 ∷ impressa ss)
impressa (arquitetura_ok m n ∷ ss) = impressa ss

-- A line that reading a baseline leaves as it is: one line, nothing to trim, no comment.
pub record IsLinhaLimpa (t : Texto) : Type 0 where
  pub sem_quebra : all (λ c. not (c == 10)) t ≡ true
  pub aparada : trim_space t ≡ t
  pub nao_vazia : vazio t ≡ false
  pub sem_comentario : has_prefix t (codes "#") ≡ false

abbrev Limpas : List Violacao → Type 0
Limpas vs = All (λ v. IsLinhaLimpa (escrita v)) vs

contida-incluir :
    (x t : Texto) (ts : List Texto) → contida x (incluir t ts) ≡ (eq_texto t x || contida x ts)
contida-incluir x t ts = elim (Bool-cases (contida t ts)) [
  | inr e ↦ rw e refl
  | inl e ↦ rw e (elim (Bool-cases (eq_texto t x)) [
    | inr f ↦ rw f refl
    | inl f ↦ rw (f, ← eq_texto→eq t x f, e) refl
  ])
]

-- The lines accepted from a generated baseline are the written violations.
contida-gerada :
    (vs : List Violacao) (x : Texto)
    → Limpas vs
    → contida x (linhas_aceitas (split 10 (impressa (map (λ v. listada (escrita v)) vs))))
      ≡ contida x (map escrita vs)
unfolding linhas_aceitas split trim_space
contida-gerada [] x h = refl
contida-gerada (v ∷ vs) x (h, hs) =
    rw
      (
        split-linha 10 (escrita v) (impressa (map (λ v. listada (escrita v)) vs)) h.sem_quebra,
        linhas_aceitas,
        h.aparada,
        h.nao_vazia,
        h.sem_comentario,
        contida-incluir x (escrita v)
            (linhas_aceitas (split 10 (impressa (map (λ v. listada (escrita v)) vs)))),
        contida-gerada vs x hs,
      )
      refl

All-contida :
    (q : Texto → Bool) (ts : List Texto)
    → ((x : Texto) → contida x ts ≡ true → q x ≡ true)
    → All (λ t. q t ≡ true) ts
All-contida q [] h = tt
All-contida q (t ∷ ts) h =
    (h t (ground (arith, eq_texto_refl t)), All-contida q ts (λ x k. h x (ground arith)))

All-map :
    {A : Type 0} (P : Texto → Type 0) (f : A → Texto) (xs : List A)
    → All P (map f xs)
    → All (λ x. P (f x)) xs
All-map P f [] h = tt
All-map P f (x ∷ xs) (h, hs) = (h, All-map P f xs hs)

nenhum-keep :
    {A : Type 0} (p : A → Bool) (xs : List A)
    → (nenhum (keep (λ x. not (p x)) xs) ≡ true) ↔ All (λ x. p x ≡ true) xs
nenhum-keep p [] = (λ h. tt, λ h. refl)
nenhum-keep p (x ∷ xs) = elim (Bool-cases (p x)) [
  | inl e ↦ rw e (λ h. (refl, (nenhum-keep p xs).0 h), λ (_, h). (nenhum-keep p xs).1 h)
  | inr e ↦ rw e (λ h. absurd (ground arith), λ (h, _). absurd (ground arith))
]

nenhum-inserir : (t : Texto) (ts : List Texto) → nenhum (inserir (λ t. t) t ts) ≡ false
unfolding inserir
nenhum-inserir t [] = refl
nenhum-inserir t (u ∷ ts) = ground arith

nenhum-ordenar : (ts : List Texto) → nenhum (ordenar (λ t. t) ts) ≡ nenhum ts
unfolding ordenar
nenhum-ordenar [] = refl
nenhum-ordenar (t ∷ ts) = nenhum-inserir t (ordenar (λ t. t) ts)

-- Every violation is accepted, and under `-estrito` every accepted line is a violation.
abbrev pub Aceita : Bool → List Violacao → List Texto → Type 0
Aceita estrito atuais aceitas =
    All (λ v. contida (escrita v) aceitas ≡ true) atuais
    × (estrito ≡ true → All (λ t. contida t (map escrita atuais) ≡ true) aceitas)

limpo_iff :
    (e a b : Bool)
    → (◌≡◌ {A = ℕ} (if a && (not e || b) then 0 else 1) 0) ↔ ((a ≡ true) × (e ≡ true → b ≡ true))
limpo_iff e a b = (λ h. (ground arith, λ k. ground arith), λ (h, k). limpo e h k)
  where
    limpo :
        (e : Bool)
        → a ≡ true
        → (e ≡ true → b ≡ true)
        → ◌≡◌ {A = ℕ} (if a && (not e || b) then 0 else 1) 0
    limpo true h k = rw (h, k refl) refl
    limpo false h k = rw h refl

comparar-codigo :
    (estrito : Bool) (atuais : List Violacao) (aceitas : List Texto)
    → ((comparar estrito atuais aceitas).codigo ≡ 0) ↔ Aceita estrito atuais aceitas
unfolding comparar
comparar-codigo estrito atuais aceitas = (
  λ h.
      let (a, b) = (limpo_iff estrito _ _).0 h in
      (
        (nenhum-keep (λ v. contida (escrita v) aceitas) atuais).0 a,
        λ e.
            (nenhum-keep (λ t. contida t (map escrita atuais)) aceitas).0
              (sym (nenhum-ordenar _) ∙ b e),
      ),
  λ (a, b). (limpo_iff estrito _ _).1 (
    (nenhum-keep (λ v. contida (escrita v) aceitas) atuais).1 a,
    λ e. nenhum-ordenar _ ∙ (nenhum-keep (λ t. contida t (map escrita atuais)) aceitas).1 (b e),
  ),
)

-- The command passes: the walk and the baseline can be read, and the baseline accepts the violations.
abbrev pub IsAprovado : Servico → Leitura → Bool → Type 0
IsAprovado s l estrito =
    (atuais : List Violacao) × (aceitas : List Texto) × (verificar s ≡ some atuais)
    × (ler_baseline l ≡ some aceitas)
    × Aceita estrito atuais aceitas

-- With a baseline, the exit code is 0 exactly when the tree and the baseline can be read, every violation
-- found is a line of the baseline and, with `-estrito`, every line of the baseline is a violation found.
pub executar-codigo :
    (s : Servico) (l : Leitura) (estrito : Bool)
    → ((executar s (some l) false estrito).codigo ≡ 0) ↔ IsAprovado s l estrito
unfolding executar
executar-codigo s l estrito = elim (Option-cases (verificar s)) [
  | inl e ↦ rw e (λ h. absurd (ground arith), λ (as_, bs, f, _, _). absurd (none_ne_some f))
  | inr (vs, e) ↦ elim (Option-cases (ler_baseline l)) [
    | inl f ↦ rw (e, f) (λ h. absurd (ground arith), λ (as_, bs, _, g, _). absurd (none_ne_some g))
    | inr (ts, f) ↦
        rw (e, f)
          (
            λ h. (vs, ts, refl, refl, (comparar-codigo estrito vs ts).0 h),
            λ (as_, bs, g, k, h).
                let hh : Aceita estrito vs ts = rw (some_inj g, some_inj k) h in
                (comparar-codigo estrito vs ts).1 hh,
          )
  ]
]

-- The lines that `-gerar-baseline` prints, given back as the baseline of the same tree, are accepted, with
-- `-estrito` too, when the walk ends without an error and every violation is written on one line with nothing to trim at its ends and without
-- a `#` in front.
pub executar-gerada :
    (s : Servico) (o : Option Leitura) (e estrito : Bool) (vs : List Violacao)
    → verificar s ≡ some vs
    → Limpas vs
    → (executar s (some (lido (impressa (executar s o true e).saida))) false estrito).codigo ≡ 0
unfolding executar ler_baseline
executar-gerada s o e estrito vs h k =
    rw (h, executar)
      ((comparar-codigo estrito vs _).1 (
        All-map _ escrita vs (All-contida _ (map escrita vs) (λ x m. contida-gerada vs x k ∙ m)),
        λ _. All-contida _ _ (λ x m. sym (contida-gerada vs x k) ∙ m),
      ))

-- ===== src/Arquitetura/Achados.antt =====
-- What `Verificar` finds, against a description of the forbidden imports of a tree.
use mathlib.Core.List.{Memᴰ}
use mathlib.Core.List.Permᴰ
use deelp_pkg.Ordem.Laws.{ordenar-Permᴰ, Memᴰ_of_Permᴰ}
use deelp_pkg.Arquitetura.{
  Regra, Violacao, Entrada, Entradas, arquivo_go, diretorio, ilegivel, nenhuma, entrada, escrita,
  regra_de, do_arquivo, pulada, abaixo, depois, visitar, visitar_todas, Servico, modulo_do_servico,
  ordenadas, verificar, dos_imports,
}
use deelp_pkg.Arquitetura.Imports.{
  Contem, ContemAlguma, IsViolacao, Memᴰ-append, dos_imports_sound, dos_imports_complete,
}
use deelp_pkg.Prelude.{
  [], none, some, inl, inr, refl, Option, List, Bool-cases, ◌↔◌, ◌⊎◌, arith, Option-cases,
  none_ne_some, sym, some_inj, ◌∙◌, ◌≡◌,
}
use deelp_pkg.Texto.{Texto, has_suffix, codes}
use mathlib.Core.Path.{subst}
use deelp_pkg.Arquitetura.Imports.{ImportaProibido}

-- The list, unless there was an error, holds exactly what `P` describes.
abbrev pub Exato : Option (List Violacao) → (Violacao → Type 0) → Type 0
Exato none P = Unit
Exato (some vs) P = (v : Violacao) → Memᴰ v vs ↔ P v

Exato_vazio : (P : Violacao → Type 0) → ((v : Violacao) → ¬ P v) → Exato (some []) P
Exato_vazio P n v = (λ m. elim m [ ], λ p. absurd (n v p))

completa :
    (modulo rel : Texto) (imports : List Texto) (v : Violacao) (r q : Regra)
    → Option.some r ≡ some q
    → ImportaProibido modulo rel q v imports
    → Memᴰ v (dos_imports modulo rel r imports)
completa modulo rel imports v r q f (c, m, h, p) =
    subst (λ x. Memᴰ v (dos_imports modulo rel x imports)) (sym (some_inj f))
      (dos_imports_complete modulo rel q v imports c m h p)

do_arquivo-Exato :
    (modulo rel : Texto) (imports : List Texto)
    → Exato (do_arquivo modulo rel (some imports)) (IsViolacao modulo rel imports)
unfolding do_arquivo
do_arquivo-Exato modulo rel imports = elim (Bool-cases (has_suffix rel (codes ".go"))) [
  | inr a ↦ rw a (Exato_vazio _ (λ v ((g, _), _). ground arith))
  | inl a ↦ elim (Bool-cases (has_suffix rel (codes "_test.go"))) [
    | inl b ↦ rw (a, b) (Exato_vazio _ (λ v ((_, g), _). ground arith))
    | inr b ↦ elim (Option-cases (regra_de rel)) [
      | inl e ↦ rw (a, b, e) (Exato_vazio _ (λ v (_, q). none_ne_some (sym e ∙ q.1)))
      | inr (r, e) ↦
          rw (a, b, e)
            (λ v. (
              λ m. ((a, b), (r, e, dos_imports_sound modulo rel r v imports m)),
              λ (g, q). completa modulo rel imports v r q.0 (sym e ∙ q.1) q.2,
            ))
    ]
  ]
]

nao_lido-Exato :
    (modulo rel : Texto) (P : Violacao → Type 0)
    → ((v : Violacao) → ¬ P v)
    → Exato (do_arquivo modulo rel none) P
unfolding do_arquivo
nao_lido-Exato modulo rel P n = elim (Bool-cases (has_suffix rel (codes ".go"))) [
  | inr a ↦ rw a (Exato_vazio P n)
  | inl a ↦ elim (Bool-cases (has_suffix rel (codes "_test.go"))) [
    | inl b ↦ rw (a, b) (Exato_vazio P n)
    | inr b ↦ elim (Option-cases (regra_de rel)) [
      | inl e ↦ rw (a, b, e) (Exato_vazio P n)
      | inr (r, e) ↦ rw (a, b, e) tt
    ]
  ]
]

-- Some file of the entry has the violation.
abbrev EmEntrada : Texto → Texto → Entrada → Violacao → Type 0
EmEntrada modulo caminho e v =
    (rel : Texto) × (imports : List Texto) × Contem caminho e rel imports
    × IsViolacao modulo rel imports v

abbrev pub EmEntradas : Texto → Texto → Entradas → Violacao → Type 0
EmEntradas modulo caminho es v =
    (rel : Texto) × (imports : List Texto) × ContemAlguma caminho es rel imports
    × IsViolacao modulo rel imports v

depois-Exato :
    (o p : Option (List Violacao)) (P Q R : Violacao → Type 0)
    → Exato o P
    → Exato p Q
    → ((v : Violacao) → (P v ⊎ Q v) ↔ R v)
    → Exato (depois o p) R
depois-Exato none p P Q R h k f = tt
depois-Exato (some vs) none P Q R h k f = tt
depois-Exato (some vs) (some ws) P Q R h k f = λ v. (
  λ m.
      (f v).0
        (elim ((Memᴰ-append vs ws).0 m) [ inl n ↦ inl ((h v).0 n) | inr n ↦ inr ((k v).0 n) ]),
  λ r.
      (Memᴰ-append vs ws).1
        (elim ((f v).1 r) [ inl n ↦ inl ((h v).1 n) | inr n ↦ inr ((k v).1 n) ]),
)

Exato-map :
    (o : Option (List Violacao)) (P Q : Violacao → Type 0)
    → Exato o P
    → ((v : Violacao) → P v ↔ Q v)
    → Exato o Q
Exato-map none P Q h f = tt
Exato-map (some vs) P Q h f = λ v. (λ m. (f v).0 ((h v).0 m), λ q. (h v).1 ((f v).1 q))

mutual
  unfolding visitar visitar_todas

  visitar-Exato :
      (modulo caminho : Texto) (e : Entrada)
      → Exato (visitar modulo caminho e) (EmEntrada modulo caminho e)
  visitar-Exato modulo caminho (arquivo_go nome none) =
      nao_lido-Exato modulo (abaixo caminho nome) _ (λ v (rel, imports, h, _). elim h [ ])
  visitar-Exato modulo caminho (arquivo_go nome (some cs)) =
      Exato-map (do_arquivo modulo (abaixo caminho nome) (some cs)) _ _
        (do_arquivo-Exato modulo (abaixo caminho nome) cs)
        (λ v. (
          λ h. (abaixo caminho nome, cs, (refl, refl), h),
          λ (rel, imports, (e, f), h).
              subst (λ x. IsViolacao modulo x cs v) e (subst (λ x. IsViolacao modulo rel x v) f h),
        ))
  visitar-Exato modulo caminho (ilegivel nome) = elim (Bool-cases (pulada nome)) [
    | inl e ↦ rw e (Exato_vazio _ (λ v (rel, imports, h, _). elim h [ ]))
    | inr e ↦ rw e tt
  ]
  visitar-Exato modulo caminho (diretorio nome es) = elim (Bool-cases (pulada nome)) [
    | inl e ↦ rw e (Exato_vazio _ (λ v (rel, imports, (f, _), _). ground arith))
    | inr e ↦ rw e (
        Exato-map (visitar_todas modulo (abaixo caminho nome) es) _ _
          (visitar_todas-Exato modulo (abaixo caminho nome) es)
          (λ v. (
            λ (rel, imports, h, p). (rel, imports, (e, h), p),
            λ (rel, imports, (_, h), p). (rel, imports, h, p),
          )))
  ]

  visitar_todas-Exato :
      (modulo caminho : Texto) (es : Entradas)
      → Exato (visitar_todas modulo caminho es) (EmEntradas modulo caminho es)
  visitar_todas-Exato modulo caminho nenhuma = Exato_vazio _ (λ v (rel, imports, h, _). elim h [ ])
  visitar_todas-Exato modulo caminho (entrada e es) =
      depois-Exato (visitar modulo caminho e) (visitar_todas modulo caminho es) _ _ _
        (visitar-Exato modulo caminho e) (visitar_todas-Exato modulo caminho es)
        (λ v. (
          elim [
            | inl (rel, imports, h, p) ↦ (rel, imports, inl h, p)
            | inr (rel, imports, h, p) ↦ (rel, imports, inr h, p)
          ],
          λ (rel, imports, h, p). elim h [
            | inl k ↦ inl (rel, imports, k, p)
            | inr k ↦ inr (rel, imports, k, p)
          ],
        ))

ordenadas-Exato :
    (o : Option (List Violacao)) (P : Violacao → Type 0) → Exato o P → Exato (ordenadas o) P
ordenadas-Exato none P h = tt
ordenadas-Exato (some vs) P h = λ v. (
  λ m. (h v).0 (Memᴰ_of_Permᴰ (ordenar-Permᴰ escrita vs) m),
  λ p. Memᴰ_of_Permᴰ (Permᴰ.symm (ordenar-Permᴰ escrita vs)) ((h v).1 p),
)

-- A forbidden import of the service: of some file of its tree, with the module that go.mod names.
abbrev pub IsProibido : Servico → Violacao → Type 0
IsProibido s v =
    (modulo : Texto) × (modulo_do_servico s.go_mod ≡ some modulo) × EmEntradas modulo [] s.raiz v

-- Where the walk ends without an error, the list of `Verificar` holds exactly the forbidden imports of the
-- tree: every import of the module's own packages, at or below a package that the rule of the file's layer
-- forbids, in a source file that is no test and lies under no skipped directory, and nothing else.
pub verificar-Exato : (s : Servico) → Exato (verificar s) (IsProibido s)
unfolding verificar
verificar-Exato s = elim (Option-cases (modulo_do_servico s.go_mod)) [
  | inl e ↦ rw e tt
  | inr (modulo, e) ↦ rw e (
      Exato-map (ordenadas (visitar_todas modulo [] s.raiz)) _ _
        (ordenadas-Exato (visitar_todas modulo [] s.raiz) _ (visitar_todas-Exato modulo [] s.raiz))
        (λ v. (
          λ h. (modulo, e, h),
          λ (m, f, h). subst (λ x. EmEntradas x [] s.raiz v) (some_inj (sym f ∙ e)) h,
        )))
]

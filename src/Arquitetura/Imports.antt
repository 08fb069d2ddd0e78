-- ===== src/Arquitetura/Imports.antt =====
-- The violations in the imports of one file, against a description of a forbidden import.
use mathlib.Core.List.{Memᴰ}
use deelp_pkg.Arquitetura.{
  Regra, Violacao, Entrada, Entradas, arquivo_go, diretorio, ilegivel, nenhuma, entrada, barra,
  regra_de, proibicoes, do_import, dos_imports, pulada, abaixo,
}
use deelp_pkg.Prelude.{
  [], ◌∷◌, true, false, none, some, inl, inr, ◌||◌, List, Bool, ◌++◌, ◌↔◌, ◌≡◌, Bool-cases, ◌⊎◌,
  refl,
}
use deelp_pkg.Texto.{Texto, has_suffix, codes, eq_texto, has_prefix, trim_prefix}
use mathlib.Core.Path.{subst}

-- A file that parses, under directories none of which is skipped, with its path and its imports.
abbrev mutual
  pub Contem : Texto → Entrada → Texto → List Texto → Type 0
  Contem caminho (arquivo_go nome none) rel imports = ⊥
  Contem caminho (arquivo_go nome (some cs)) rel imports =
      (rel ≡ abaixo caminho nome) × (imports ≡ cs)
  Contem caminho (ilegivel nome) rel imports = ⊥
  Contem caminho (diretorio nome es) rel imports =
      (pulada nome ≡ false) × ContemAlguma (abaixo caminho nome) es rel imports

  pub ContemAlguma : Texto → Entradas → Texto → List Texto → Type 0
  ContemAlguma caminho nenhuma rel imports = ⊥
  ContemAlguma caminho (entrada e es) rel imports =
      Contem caminho e rel imports ⊎ ContemAlguma caminho es rel imports

-- A source file that is no test.
abbrev pub IsFonte : Texto → Type 0
IsFonte rel = (has_suffix rel (codes ".go") ≡ true) × (has_suffix rel (codes "_test.go") ≡ false)

-- A forbidden package, or one below it.
abbrev pub sob : Texto → Texto → Bool
sob interno proibida = eq_texto interno proibida || has_prefix interno (proibida ++ barra)

-- The file is of a layer with a rule, and the violation is one of its imports of the module's own packages,
-- at or below a package that the rule forbids.
abbrev pub IsViolacao : Texto → Texto → List Texto → Violacao → Type 0
IsViolacao modulo rel imports v =
    IsFonte rel
    × ((r : Regra) × (regra_de rel ≡ some r)
        × ((c : Texto) × Memᴰ c imports
            × (has_prefix c (modulo ++ barra) ≡ true)
            × ((p : Texto) × Memᴰ p r.proibidas
                × (sob (trim_prefix c (modulo ++ barra)) p ≡ true)
                × (v ≡ record { arquivo = rel; importa = trim_prefix c (modulo ++ barra) }))))

pub Memᴰ-append :
    {A : Type 0} {a : A} (xs ys : List A) → Memᴰ a (xs ++ ys) ↔ (Memᴰ a xs ⊎ Memᴰ a ys)
Memᴰ-append xs ys = (separar xs ys, elim [ inl m ↦ esquerda xs ys m | inr m ↦ direita xs ys m ])
  where
    separar : {A : Type 0} {a : A} (xs ys : List A) → Memᴰ a (xs ++ ys) → Memᴰ a xs ⊎ Memᴰ a ys
    separar [] ys m = inr m
    separar (x ∷ xs) ys (Memᴰ.head e) = inl (Memᴰ.head e)
    separar (x ∷ xs) ys (Memᴰ.tail m) = elim (separar xs ys m) [
      | inl k ↦ inl (Memᴰ.tail k)
      | inr k ↦ inr k
    ]

    esquerda : {A : Type 0} {a : A} (xs ys : List A) → Memᴰ a xs → Memᴰ a (xs ++ ys)
    esquerda [] ys m = elim m [ ]
    esquerda (x ∷ xs) ys (Memᴰ.head e) = Memᴰ.head e
    esquerda (x ∷ xs) ys (Memᴰ.tail m) = Memᴰ.tail (esquerda xs ys m)

    direita : {A : Type 0} {a : A} (xs ys : List A) → Memᴰ a ys → Memᴰ a (xs ++ ys)
    direita [] ys m = m
    direita (x ∷ xs) ys m = Memᴰ.tail (direita xs ys m)

module _ (rel interno : Texto) (v : Violacao) where
  abbrev pub Proibe : List Texto → Type 0
  Proibe ps =
      (p : Texto) × Memᴰ p ps
      × (sob interno p ≡ true)
      × (v ≡ record { arquivo = rel; importa = interno })

  proibicoes_sound : (ps : List Texto) → Memᴰ v (proibicoes rel interno ps) → Proibe ps
  unfolding proibicoes
  proibicoes_sound [] = λ m. elim m [ ]
  proibicoes_sound (p ∷ ps) = elim (Bool-cases (sob interno p)) [
    | inl s ↦ rw s (cabeca s (proibicoes_sound ps))
    | inr s ↦ rw s (λ m. let (q, k, h, e) = proibicoes_sound ps m in (q, Memᴰ.tail k, h, e))
  ]
    where
      cabeca :
          sob interno p ≡ true
          → (Memᴰ v (proibicoes rel interno ps) → Proibe ps)
          → Memᴰ v (record { arquivo = rel; importa = interno } ∷ proibicoes rel interno ps)
          → Proibe (p ∷ ps)
      cabeca s ih (Memᴰ.head e) = (p, Memᴰ.head refl, s, e)
      cabeca s ih (Memᴰ.tail m) = let (q, k, h, e) = ih m in (q, Memᴰ.tail k, h, e)

  proibicoes_complete :
      (ps : List Texto) (p : Texto)
      → Memᴰ p ps
      → sob interno p ≡ true
      → v ≡ record { arquivo = rel; importa = interno }
      → Memᴰ v (proibicoes rel interno ps)
  unfolding proibicoes
  proibicoes_complete [] p m h e = elim m [ ]
  proibicoes_complete (q ∷ ps) p (Memᴰ.head f) h e =
      let k : sob interno q ≡ true = rw (← f) h in rw k (Memᴰ.head e)
  proibicoes_complete (q ∷ ps) p (Memᴰ.tail m) h e = elim (Bool-cases (sob interno q)) [
    | inl s ↦ rw s (Memᴰ.tail (proibicoes_complete ps p m h e))
    | inr s ↦ rw s (proibicoes_complete ps p m h e)
  ]

module _ (modulo rel : Texto) (r : Regra) (v : Violacao) where
  -- One of the imports is the module's own and forbidden.
  abbrev pub ImportaProibido : List Texto → Type 0
  ImportaProibido cs =
      (c : Texto) × Memᴰ c cs
      × (has_prefix c (modulo ++ barra) ≡ true)
      × Proibe rel (trim_prefix c (modulo ++ barra)) v r.proibidas

  do_import_sound :
      (c : Texto)
      → Memᴰ v (do_import modulo rel r c)
      → (has_prefix c (modulo ++ barra) ≡ true)
        × Proibe rel (trim_prefix c (modulo ++ barra)) v r.proibidas
  unfolding do_import
  do_import_sound c = elim (Bool-cases (has_prefix c (modulo ++ barra))) [
    | inl h ↦
        rw h (λ m. (refl, proibicoes_sound rel (trim_prefix c (modulo ++ barra)) v r.proibidas m))
    | inr h ↦ rw h (λ m. elim m [ ])
  ]

  pub dos_imports_sound :
      (cs : List Texto) → Memᴰ v (dos_imports modulo rel r cs) → ImportaProibido cs
  unfolding dos_imports
  dos_imports_sound [] m = elim m [ ]
  dos_imports_sound (c ∷ cs) m =
      elim ((Memᴰ-append (do_import modulo rel r c) (dos_imports modulo rel r cs)).0 m) [
        | inl k ↦ let (h, p) = do_import_sound c k in (c, Memᴰ.head refl, h, p)
        | inr k ↦ let (d, n, h, p) = dos_imports_sound cs k in (d, Memᴰ.tail n, h, p)
      ]

  do_import_complete :
      (c : Texto)
      → has_prefix c (modulo ++ barra) ≡ true
      → Proibe rel (trim_prefix c (modulo ++ barra)) v r.proibidas
      → Memᴰ v (do_import modulo rel r c)
  unfolding do_import
  do_import_complete c h (p, m, s, e) =
      rw h (proibicoes_complete rel (trim_prefix c (modulo ++ barra)) v r.proibidas p m s e)

  pub dos_imports_complete :
      (cs : List Texto) (c : Texto)
      → Memᴰ c cs
      → has_prefix c (modulo ++ barra) ≡ true
      → Proibe rel (trim_prefix c (modulo ++ barra)) v r.proibidas
      → Memᴰ v (dos_imports modulo rel r cs)
  unfolding dos_imports
  dos_imports_complete [] c m h p = elim m [ ]
  dos_imports_complete (d ∷ cs) c (Memᴰ.head f) h p =
      (Memᴰ-append (do_import modulo rel r d) (dos_imports modulo rel r cs)).1
        (inl (subst (λ x. Memᴰ v (do_import modulo rel r x)) f (do_import_complete c h p)))
  dos_imports_complete (d ∷ cs) c (Memᴰ.tail m) h p =
      (Memᴰ-append (do_import modulo rel r d) (dos_imports modulo rel r cs)).1
        (inr (dos_imports_complete cs c m h p))

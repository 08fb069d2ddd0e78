-- ===== src/Tenantdados/Exportacao/Laws.antt =====
-- What an export of a service holds.
use mathlib.Core.List.{Memᴰ, Permᴰ}
use deelp_pkg.Ordem.{ordenar}
use deelp_pkg.Ordem.Laws.{IsOrdenada, ordenar-IsOrdenada, ordenar-Permᴰ}
use deelp_pkg.Tenantdados.{Arquivo, Fonte, Servico}
use deelp_pkg.Tenantdados.Exportacao.{com_lotes, exportar_fontes, exportar}
use deelp_pkg.Prelude.{[], ◌∷◌, none, some, inl, inr, refl, List, Option, Option-cases, ◌≡◌, ◌++◌}

module _ {S : Type 0} where
  -- The files of every source, in the sources' order.
  abbrev pub Lotes : List (Fonte S) → S → List Arquivo → Type 0
  Lotes [] s as_ = as_ ≡ []
  Lotes (f ∷ fs) s as_ =
      (lote : List Arquivo) × (resto : List Arquivo) × (f.exportar s ≡ some lote)
      × (as_ ≡ lote ++ resto)
      × Lotes fs s resto

  -- An error only where a source has one; else all the files, in the order of their names.
  abbrev pub Exportado : List (Fonte S) → S → Option (List Arquivo) → Type 0
  Exportado fs s none = (f : Fonte S) × Memᴰ f fs × (f.exportar s ≡ none)
  Exportado fs s (some as_) =
      IsOrdenada (λ a. a.nome) as_ × ((todos : List Arquivo) × Lotes fs s todos × Permᴰ as_ todos)

  abbrev Juntado : List (Fonte S) → S → Option (List Arquivo) → Type 0
  Juntado fs s none = (f : Fonte S) × Memᴰ f fs × (f.exportar s ≡ none)
  Juntado fs s (some as_) = Lotes fs s as_

  com_lotes-Juntado :
      (f : Fonte S) (fs : List (Fonte S)) (s : S) (lote : List Arquivo) (o : Option (List Arquivo))
      → f.exportar s ≡ some lote
      → Juntado fs s o
      → Juntado (f ∷ fs) s (com_lotes lote o)
  com_lotes-Juntado f fs s lote none e (g, m, h) = (g, Memᴰ.tail m, h)
  com_lotes-Juntado f fs s lote (some as_) e h = (lote, as_, e, refl, h)

  exportar_fontes-Juntado : (fs : List (Fonte S)) (s : S) → Juntado fs s (exportar_fontes fs s)
  unfolding exportar_fontes
  exportar_fontes-Juntado [] s = refl
  exportar_fontes-Juntado (f ∷ fs) s = elim (Option-cases (f.exportar s)) [
    | inl e ↦ rw e (f, Memᴰ.head refl, e)
    | inr (lote, e) ↦
        rw e (com_lotes-Juntado f fs s lote (exportar_fontes fs s) e (exportar_fontes-Juntado fs s))
  ]

  -- An export fails only if a source fails; else it holds the files of every source, rearranged into the
  -- order of their names.
  pub exportar-Exportado :
      (servico : Servico S) (s : S) → Exportado servico.fontes s (exportar servico s)
  unfolding exportar
  exportar-Exportado servico s =
      ordenado (exportar_fontes servico.fontes s) (exportar_fontes-Juntado servico.fontes s)
    where
      ordenado :
          (o : Option (List Arquivo))
          → Juntado servico.fontes s o
          → Exportado servico.fontes s
              (elim o [ none ↦ none | some as_ ↦ some (ordenar (λ a. a.nome) as_) ])
      ordenado none h = h
      ordenado (some as_) h =
          (ordenar-IsOrdenada (λ a. a.nome) as_, (as_, h, ordenar-Permᴰ (λ a. a.nome) as_))

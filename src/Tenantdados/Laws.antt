-- ===== src/Tenantdados/Laws.antt =====
-- What a purge may touch.
use deelp_pkg.Tenantdados.{
  Fonte, Contagem, Servico, RelatorioExpurgo, Expurgo, seguir, expurgar_fontes, expurgar, eq_ℤ,
}
use deelp_pkg.Prelude.{
  [], ◌∷◌, true, none, some, pos, inl, inr, refl, ◌&&◌, ℤ, Bool, List, Option, ◌≡◌, Bool-cases,
  keep, not,
}
use deelp_pkg.Texto.{Texto}
use mathlib.Core.Path.{fun_ext}

module _ {S : Type 0} where
  seguir-simulado :
      (resto : S → RelatorioExpurgo → S × Expurgo) (r : RelatorioExpurgo) (nome : Texto) (s : S)
      (o : Option Contagem)
      → ((s : S) (r : RelatorioExpurgo) → (resto s r).0 ≡ s)
      → (seguir resto r nome (s, o)).0 ≡ s
  seguir-simulado resto r nome s none h = refl
  seguir-simulado resto r nome s (some c) h = h s _

  expurgar_fontes-simulado :
      (fase : ℤ) (fs : List (Fonte S)) (s : S) (r : RelatorioExpurgo)
      → (expurgar_fontes fase true fs s r).0 ≡ s
  unfolding expurgar_fontes
  expurgar_fontes-simulado fase [] s r = refl
  expurgar_fontes-simulado fase (f ∷ fs) s r = elim (Bool-cases (eq_ℤ f.fase fase)) [
    | inr e ↦ rw e (expurgar_fontes-simulado fase fs s r)
    | inl e ↦ rw e (
        seguir-simulado (expurgar_fontes fase true fs) r f.nome s (f.contar s)
          (expurgar_fontes-simulado fase fs))
  ]

  -- A simulation leaves the store as it was, whatever the phase and however it ends.
  pub expurgar-simulado :
      (servico : Servico S) (fase : ℤ) (s : S) → (expurgar servico fase true s).0 ≡ s
  unfolding expurgar
  expurgar-simulado servico fase s =
      elim (Bool-cases (not (eq_ℤ fase (pos 1)) && not (eq_ℤ fase (pos 2)))) [
        | inl e ↦ rw e refl
        | inr e ↦ rw e (expurgar_fontes-simulado fase servico.fontes s _)
      ]

  expurgar_fontes-fase :
      (fase : ℤ) (simular : Bool) (fs : List (Fonte S)) (s : S) (r : RelatorioExpurgo)
      → expurgar_fontes fase simular fs s r
        ≡ expurgar_fontes fase simular (keep (λ f. eq_ℤ f.fase fase) fs) s r
  unfolding expurgar_fontes
  expurgar_fontes-fase fase simular [] s r = refl
  expurgar_fontes-fase fase simular (f ∷ fs) s r = elim (Bool-cases (eq_ℤ f.fase fase)) [
    | inr e ↦ rw e (expurgar_fontes-fase fase simular fs s r)
    | inl e ↦
        rw (e, expurgar_fontes, e)
          (rw (fun_ext (λ s. fun_ext (λ r. expurgar_fontes-fase fase simular fs s r))) refl)
  ]

  -- A purge of a phase runs exactly as that of the service that has the sources of the phase only, in the
  -- same order: it never touches the others.
  expurgar-fase :
      (servico : Servico S) (fase : ℤ) (simular : Bool) (s : S)
      → expurgar servico fase simular s
        ≡ expurgar
            (record servico { fontes = keep (λ f. eq_ℤ f.fase fase) servico.fontes })
            fase
            simular
            s
  unfolding expurgar
  expurgar-fase servico fase simular s =
      elim (Bool-cases (not (eq_ℤ fase (pos 1)) && not (eq_ℤ fase (pos 2)))) [
        | inl e ↦ rw e refl
        | inr e ↦ rw e (expurgar_fontes-fase fase simular servico.fontes s _)
      ]

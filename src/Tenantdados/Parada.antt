-- ===== src/Tenantdados/Parada.antt =====
-- Where a purge stops, and what it has done by then.
use deelp_pkg.Tenantdados.{
  Fonte, Contagem, Servico, RelatorioExpurgo, Expurgo, fase_invalida, interrompido, completo,
  seguir, contar_ou_apagar, com_item, expurgar_fontes, expurgar, eq_ℤ,
}
use mathlib.Core.List.{append_assoc, append-nil}
use deelp_pkg.Prelude.{
  [], ◌∷◌, none, some, pos, inl, inr, refl, true, negsuc, Bool, ℤ, Bool-cases, List, ◌≡◌, ◌≢◌,
  Option, arith, keep, ◌++◌, ◌↔◌, ◌∙◌, ◌⊎◌, ap, pos_part, neg_part,
}

pub eq_ℤ_iff : (a b : ℤ) → (eq_ℤ a b ≡ true) ↔ (a ≡ b)
eq_ℤ_iff (pos m) (pos n) = (λ h. ap pos (ground arith), λ e. ground (arith, ap pos_part e))
eq_ℤ_iff (pos m) (negsuc n) =
    (λ h. absurd (ground arith), λ e. absurd (ground (arith, ap neg_part e)))
eq_ℤ_iff (negsuc m) (pos n) =
    (λ h. absurd (ground arith), λ e. absurd (ground (arith, ap neg_part e)))
eq_ℤ_iff (negsuc m) (negsuc n) = (λ h. ap negsuc (ground arith), λ e. ground (arith, ap neg_part e))

module _ {S : Type 0} (simular : Bool) where
  -- The sources, one after the other, succeed with these counts and take the store from `s` to `t`.
  abbrev pub Sucede : List (Fonte S) → S → S → List Contagem → Type 0
  Sucede [] s t cs = (s ≡ t) × (cs ≡ [])
  Sucede (f ∷ fs) s t cs =
      (c : Contagem) × (rest : List Contagem) × (u : S) × (contar_ou_apagar simular f s
        ≡ (u, some c))
      × (cs ≡ c ∷ rest)
      × Sucede fs u t rest

  -- Every source succeeds; or one fails, those before it succeed and those behind it are not touched. The
  -- report has the counts of those that succeeded.
  abbrev pub Desfecho : List (Fonte S) → S → RelatorioExpurgo → S × Expurgo → Type 0
  Desfecho fs s r (t, fase_invalida) = ⊥
  Desfecho fs s r (t, completo q) =
      (cs : List Contagem) × (q ≡ record r { itens = r.itens ++ cs }) × Sucede fs s t cs
  Desfecho fs s r (t, interrompido q nome) =
      (antes : List (Fonte S)) × (f : Fonte S) × (depois : List (Fonte S)) × (cs : List Contagem)
      × (u : S) × (fs ≡ antes ++ (f ∷ depois))
      × (q ≡ record r { itens = r.itens ++ cs })
      × Sucede antes s u cs
      × (contar_ou_apagar simular f u ≡ (t, none))
      × (nome ≡ f.nome)

  Desfecho-seguir :
      (f : Fonte S) (fs : List (Fonte S)) (s u : S) (r : RelatorioExpurgo) (c : Contagem)
      (x : S × Expurgo)
      → contar_ou_apagar simular f s ≡ (u, some c)
      → Desfecho fs u (com_item r c) x
      → Desfecho (f ∷ fs) s r x
  Desfecho-seguir f fs s u r c (t, fase_invalida) e h = h
  Desfecho-seguir f fs s u r c (t, completo q) e (cs, k, h) =
      (c ∷ cs, k ∙ rw (append_assoc r.itens (c ∷ []) cs) refl, (c, cs, u, e, refl, h))
  Desfecho-seguir f fs s u r c (t, interrompido q nome) e (antes, g, depois, cs, w, a, k, h, n, m) =
      (
        f ∷ antes,
        g,
        depois,
        c ∷ cs,
        w,
        rw a refl,
        k ∙ rw (append_assoc r.itens (c ∷ []) cs) refl,
        (c, cs, u, e, refl, h),
        n,
        m,
      )

  seguir-Desfecho :
      (f : Fonte S) (fs : List (Fonte S)) (s : S) (r : RelatorioExpurgo) (o : S × Option Contagem)
      (resto : S → RelatorioExpurgo → S × Expurgo)
      → contar_ou_apagar simular f s ≡ o
      → ((u : S) (q : RelatorioExpurgo) → Desfecho fs u q (resto u q))
      → Desfecho (f ∷ fs) s r (seguir resto r f.nome o)
  seguir-Desfecho f fs s r (t, none) resto e h =
      ([], f, fs, [], s, refl, rw (append-nil r.itens) refl, (refl, refl), e, refl)
  seguir-Desfecho f fs s r (t, some c) resto e h =
      Desfecho-seguir f fs s t r c (resto t (com_item r c)) e (h t (com_item r c))

  expurgar_fontes-Desfecho :
      (fase : ℤ) (fs : List (Fonte S)) (s : S) (r : RelatorioExpurgo)
      → Desfecho (keep (λ f. eq_ℤ f.fase fase) fs) s r (expurgar_fontes fase simular fs s r)
  unfolding expurgar_fontes
  expurgar_fontes-Desfecho fase [] s r = ([], rw (append-nil r.itens) refl, (refl, refl))
  expurgar_fontes-Desfecho fase (f ∷ fs) s r = elim (Bool-cases (eq_ℤ f.fase fase)) [
    | inr e ↦ rw e (expurgar_fontes-Desfecho fase fs s r)
    | inl e ↦ rw e (
        seguir-Desfecho f (keep (λ f. eq_ℤ f.fase fase) fs) s r (contar_ou_apagar simular f s)
          (expurgar_fontes fase simular fs) refl (expurgar_fontes-Desfecho fase fs))
  ]

  -- How a purge ends: with an invalid phase, nothing done; else as the sources of the phase say.
  abbrev pub Termina : Servico S → ℤ → S → S × Expurgo → Type 0
  Termina servico fase s x =
      ((fase ≢ pos 1) × (fase ≢ pos 2) × (x ≡ (s, fase_invalida)))
      ⊎ (((fase ≡ pos 1) ⊎ (fase ≡ pos 2))
          × Desfecho (keep (λ f. eq_ℤ f.fase fase) servico.fontes) s
              (record { servico = servico.nome; fase = fase; simulado = simular; itens = [] }) x)

  -- A phase that is neither 1 nor 2 is refused and nothing done. In another, the sources of the phase, and
  -- no other, are counted or deleted in their order: all succeed, or the first that fails stops the purge,
  -- those behind it untouched; the report has the counts of those that succeeded.
  pub expurgar-Termina :
      (servico : Servico S) (fase : ℤ) (s : S)
      → Termina servico fase s (expurgar servico fase simular s)
  unfolding expurgar
  expurgar-Termina servico fase s = elim (Bool-cases (eq_ℤ fase (pos 1))) [
    | inl a ↦
        rw a (
          inr (inl ((eq_ℤ_iff fase (pos 1)).0 a), expurgar_fontes-Desfecho fase servico.fontes s _))
    | inr a ↦ elim (Bool-cases (eq_ℤ fase (pos 2))) [
      | inl b ↦
          rw (a, b)
            (inr
              (inr ((eq_ℤ_iff fase (pos 2)).0 b), expurgar_fontes-Desfecho fase servico.fontes s _))
      | inr b ↦
          rw (a, b)
            (inl (
              λ e. ground (arith, (eq_ℤ_iff fase (pos 1)).1 e),
              λ e. ground (arith, (eq_ℤ_iff fase (pos 2)).1 e),
              refl,
            ))
    ]
  ]

-- ===== src/Seguranca/RateLimiter/History.antt =====
-- Every answer of the limiter in memory against the reference that forgets nothing.
use deelp_pkg.Seguranca.RateLimiter.{historico, na_janela, allow, cleanup}
use deelp_pkg.Seguranca.RateLimiter.Laws.{
  Chamada, visita, varredura, cabe, IsOrdered, depois_de, registro, IsSorted, IsSorted-later,
}
use deelp_pkg.Seguranca.RateLimiter.Window.{
  Segue, Inv, put-Inv, cleanup-Inv, com_visits, novo-Segue, mais-Segue,
}
use deelp_pkg.Prelude.{
  [], ◌∷◌, refl, ℤ, ℕ, List, if◌then◌else◌, ◌≡◌, ◌≢◌, ◌≤◌, arith, sym, ◌++◌, pos, inl, inr, keep,
  leb_ℤ, length, Bool-cases, ◌∙◌,
}
use deelp_pkg.Texto.{Texto}
use deelp_pkg.Mapa.{Mapa, lookup, put}

module _ (dec : Discrete Texto) (limite : ℤ) (janela : ℕ) where
  anotar : ℕ → List ℕ → List ℕ
  anotar t antes = if cabe limite janela t antes then antes ++ t ∷ [] else antes

  mudar : ℕ → Texto → (Texto → List ℕ) → Texto → List ℕ
  mudar t ip ref q = elim (dec ip q) [ yes _ ↦ anotar t (ref q) | no _ ↦ ref q ]

  mudar_self : (t : ℕ) (ip : Texto) (ref : Texto → List ℕ) → mudar t ip ref ip ≡ anotar t (ref ip)
  unfolding mudar
  mudar_self t ip ref = ground arith

  mudar-ne :
      (t : ℕ) (ip : Texto) (ref : Texto → List ℕ) (q : Texto) → q ≢ ip → mudar t ip ref q ≡ ref q
  unfolding mudar
  mudar-ne t ip ref q n =
      elim (dec ip q) as (λ d. elim d [ yes _ ↦ anotar t (ref q) | no _ ↦ ref q ] ≡ ref q) [
        | yes p ↦ absurd (n (sym p))
        | no m ↦ refl
      ]

  allow-Inv :
      (now t : ℕ) (v : Mapa Texto (List ℕ)) (ref : Texto → List ℕ) (ip : Texto)
      → Inv dec limite janela now v ref
      → now ≤ t
      → ((allow dec t (com_visits dec limite janela v) ip).1 ≡ cabe limite janela t (ref ip))
        × ((v' : Mapa Texto (List ℕ)) × ((allow dec t (com_visits dec limite janela v) ip).0
              ≡ com_visits dec limite janela v')
            × Inv dec limite janela t v' (mudar t ip ref))
  unfolding allow com_visits anotar Inv Segue
  allow-Inv now t v ref ip i l =
      let hist : List ℕ = historico (lookup dec ip v) in
      let novo : List ℕ = keep (na_janela t janela) hist in
      let s = novo-Segue dec limite janela now t hist (ref ip) (i.1 ip) l in
      let d : leb_ℤ limite (pos (length (keep (na_janela t janela) (ref ip))))
          ≡ leb_ℤ limite (pos (length novo)) =
        rw ((i.1 ip).1 t l) refl in
      elim (Bool-cases (leb_ℤ limite (pos (length novo)))) [
        | inl e ↦
            let f = d ∙ e in
            rw e (
              rw f refl,
              (
                put dec ip novo v,
                refl,
                put-Inv dec limite janela now t v ref (mudar t ip ref) ip novo i l
                    (rw (mudar_self t ip ref, f) s) (mudar-ne t ip ref),
              ),
            )
        | inr e ↦
            let f = d ∙ e in
            rw e (
              rw f refl,
              (
                put dec ip (novo ++ t ∷ []) v,
                refl,
                put-Inv dec limite janela now t v ref (mudar t ip ref) ip (novo ++ t ∷ []) i l
                    (rw (mudar_self t ip ref, f) (mais-Segue dec limite janela t novo (ref ip) s))
                    (mudar-ne t ip ref),
              ),
            )
      ]

  Inv-later :
      (t n : ℕ) (v : Mapa Texto (List ℕ)) (ref : Texto → List ℕ)
      → Inv dec limite janela t v ref
      → t ≤ n
      → Inv dec limite janela n v ref
  unfolding Inv Segue
  Inv-later t n v ref (u, h) l =
      (u, λ q. (IsSorted-later janela t n _ l (h q).0, λ m k. (h q).1 m (omega arith)))

  depois_de-Inv :
      (now : ℕ) (cs : List (ℕ × Chamada))
      → IsOrdered now cs
      → (v : Mapa Texto (List ℕ)) × (depois_de dec limite janela cs
          ≡ com_visits dec limite janela v)
        × Inv dec limite janela now v (λ q. registro dec limite janela q cs)
  unfolding depois_de com_visits Inv Segue IsSorted registro mudar anotar cleanup lookup
  depois_de-Inv now [] o = ([], refl, (tt, λ q. (tt, λ n k. refl)))
  depois_de-Inv now ((t, varredura) ∷ cs) (l, o) =
      let (v, e, i) = depois_de-Inv t cs o in
      let i' = cleanup-Inv dec limite janela t t v _ i (omega arith) in
      (_, rw e refl, Inv-later t now _ _ i' l)
  depois_de-Inv now ((t, visita ip) ∷ cs) (l, o) =
      let (v, e, i) = depois_de-Inv t cs o in
      let (a, (v', e', i')) = allow-Inv t t v _ ip i (omega arith) in
      (v', rw (e, depois_de) e', Inv-later t now v' _ i' l)

  -- After any calls in the order of their instants, sweeps among them, the limiter allows a request exactly
  -- if fewer than the limit of the earlier requests of its address that were allowed lie in the window that
  -- ends now. The reference of them is computed without any forgetting.
  pub allow-registro :
      (now : ℕ) (ip : Texto) (cs : List (ℕ × Chamada))
      → IsOrdered now cs
      → (allow dec now (depois_de dec limite janela cs) ip).1
        ≡ cabe limite janela now (registro dec limite janela ip cs)
  allow-registro now ip cs o =
      let (v, e, i) = depois_de-Inv now cs o in rw e ((allow-Inv now now v _ ip i (omega arith)).0)

-- ===== src/Auth/Permissao/Laws.antt =====
-- The permission middlewares of auth/permissao.go: when they call the handler.
use deelp_pkg.Texto.Laws.{vazio_iff}
use deelp_pkg.Auth.Middleware.Laws.{IsDenied}
use deelp_pkg.Auth.Permissao.{
  resposta, erro, Consulta, com_empresa, com_canal, com_checker, conforme_resposta, ModuloAcao,
  Varredura, requer_permissao, requer_permissao_remota, requer_qualquer_permissao_remota, varrer,
  PermissaoChecker, conforme_varredura, permitida, PermissaoCheckerRemoto, negada, com_erro,
  bearer_do_request, sem_pares,
}
use deelp_pkg.Prelude.{
  [], true, false, none, some, inl, inr, refl, Option, ◌≡◌, arith, ◌≢◌, ◌⊎◌, none_ne_some,
  Bool-cases, some_inj, ◌∷◌, Bool, List, if◌then◌else◌, sym,
}
use deelp_pkg.Auth.Claims.{Claims, claims_do_contexto}
use deelp_pkg.Http.{Reply, Handler, Request}
use deelp_pkg.Texto.{Texto, vazio}
use deelp_pkg.Auth.Canal.{canal_permite_acao}
use deelp_pkg.Auth.Middleware.{Config}
use mathlib.Core.Path.{subst}

-- The claims name a user and a company.
abbrev pub ComEmpresa : Option Claims → (Claims → Type 0) → Type 0
ComEmpresa o P = (c : Claims) × (o ≡ some c) × (c.usuario_id ≢ []) × (c.empresa_id ≢ []) × P c

-- The checker is there and says yes.
abbrev pub Permite : {A : Type 0} → Option A → (A → Consulta) → Type 0
Permite {A} checker consultar = (f : A) × (checker ≡ some f) × (consultar f ≡ resposta true)

-- The handler is called, which `P` explains, or it is denied and `P` does not hold.
abbrev pub Decides : Reply → Reply → Type 0 → Type 0
Decides reply seguir P = ((reply ≡ seguir) × P) ⊎ (IsDenied reply × (¬ P))

com_empresa-decides :
    (o : Option Claims) (f : Claims → Reply) (seguir : Reply) (P : Claims → Type 0)
    → ((c : Claims) → Decides (f c) seguir (P c))
    → Decides (com_empresa o f) seguir (ComEmpresa o P)
com_empresa-decides none f seguir P d = inr ((omega arith, refl), λ (c, e, _, _, _). none_ne_some e)
com_empresa-decides (some c) f seguir P d = elim (Bool-cases (vazio c.usuario_id)) [
  | inl a ↦
      inr (rw a (omega arith, refl), λ (c', e, g, _, _). ground (arith, g, vazio_iff c'.usuario_id))
  | inr a ↦ elim (Bool-cases (vazio c.empresa_id)) [
    | inl b ↦ inr (
      rw (a, b) (omega arith, refl),
      λ (c', e, _, g, _). ground (arith, g, vazio_iff c'.empresa_id),
    )
    | inr b ↦ elim (d c) [
      | inl (e, p) ↦ inl (
        rw (a, b) e,
        (
          c,
          refl,
          ground (arith, vazio_iff c.usuario_id),
          ground (arith, vazio_iff c.empresa_id),
          p,
        ),
      )
      | inr (x, n) ↦ inr (rw (a, b) x, λ (c', e, _, _, p). n (rw (some_inj e) p))
    ]
  ]
]

com_canal-decides :
    (c : Claims) (acao : Texto) (reply seguir : Reply) (P : Type 0)
    → Decides reply seguir P
    → Decides (com_canal c acao reply) seguir ((canal_permite_acao c acao ≡ true) × P)
com_canal-decides c acao reply seguir P d = elim (Bool-cases (canal_permite_acao c acao)) [
  | inr a ↦ inr (rw a (omega arith, refl), λ (e, _). ground arith)
  | inl a ↦ elim d [ inl (e, p) ↦ inl (rw a e, (a, p)) | inr (x, n) ↦ inr (rw a x, λ (_, p). n p) ]
]

com_checker-decides :
    {A : Type 0} (checker : Option A) (consultar : A → Consulta) (seguir : Reply)
    → Decides
        (com_checker checker (λ f. conforme_resposta (consultar f) seguir))
        seguir
        (Permite checker consultar)
com_checker-decides none consultar seguir = inr ((omega arith, refl), λ (f, e, _). none_ne_some e)
com_checker-decides (some f) consultar seguir = conforme (consultar f) refl
  where
    conforme :
        (q : Consulta)
        → consultar f ≡ q
        → Decides (conforme_resposta (consultar f) seguir) seguir (Permite (some f) consultar)
    conforme erro e = inr (rw e (omega arith, refl), λ (g, p, k). ground (arith, some_inj p))
    conforme (resposta false) e =
        inr (rw e (omega arith, refl), λ (g, p, k). ground (arith, some_inj p))
    conforme (resposta true) e = inl (rw e refl, (f, refl, e))

-- `RequerPermissao` calls the handler exactly if the claims name a user and a company, the channel permits
-- the action, and there is a checker that answers yes for that user, company, module and action; in every
-- other case, a failing checker included, it answers with an error status.
requer_permissao-decides :
    (checker : Option PermissaoChecker) (modulo acao : Texto) (next : Handler) (r : Request)
    → Decides (requer_permissao checker modulo acao next r) (next r) (
        ComEmpresa (claims_do_contexto r.contexto) (λ c.
          (canal_permite_acao c acao ≡ true)
          × Permite checker (λ f. f r.contexto c.usuario_id c.empresa_id modulo acao)))
unfolding requer_permissao
requer_permissao-decides checker modulo acao next r =
    com_empresa-decides (claims_do_contexto r.contexto) _ (next r) _
      (λ c. com_canal-decides c acao _ (next r) _ (com_checker-decides checker _ (next r)))

-- `RequerPermissaoRemota` calls the handler exactly if the claims name a user and a company, the channel
-- permits the action, and there is a checker that answers yes for the request's bearer and that user, module
-- and action; in every other case, a failing checker included, it answers with an error status.
requer_permissao_remota-decides :
    (cfg : Config) (checker : Option PermissaoCheckerRemoto) (modulo acao : Texto) (next : Handler)
    (r : Request)
    → Decides (requer_permissao_remota cfg checker modulo acao next r) (next r) (
        ComEmpresa (claims_do_contexto r.contexto) (λ c.
          (canal_permite_acao c acao ≡ true)
          × Permite checker
              (λ f. f r.contexto (bearer_do_request r cfg.cookie_name) c.usuario_id modulo acao)))
unfolding requer_permissao_remota
requer_permissao_remota-decides cfg checker modulo acao next r =
    com_empresa-decides (claims_do_contexto r.contexto) _ (next r) _
      (λ c. com_canal-decides c acao _ (next r) _ (com_checker-decides checker _ (next r)))

-- Some pair of the list is within the channel, and the checker says yes to it.
abbrev pub Libera : (ModuloAcao → Consulta) → Claims → List ModuloAcao → Type 0
Libera consultar c [] = ⊥
Libera consultar c (par ∷ pares) =
    ((canal_permite_acao c par.acao ≡ true) × (consultar par ≡ resposta true))
    ⊎ Libera consultar c pares

-- A sweep ends as a permission exactly if `P` holds.
abbrev Termina : Varredura → Type 0 → Type 0
Termina v P = ((v ≡ permitida) × P) ⊎ (((v ≡ negada) ⊎ (v ≡ com_erro)) × (¬ P))

Termina-or : (v : Varredura) (P Q : Type 0) → (¬ P) → Termina v Q → Termina v (P ⊎ Q)
Termina-or v P Q n (inl (e, q)) = inl (e, inr q)
Termina-or v P Q n (inr (e, m)) = inr (e, elim [ inl p ↦ n p | inr q ↦ m q ])

varrer-Libera :
    (consultar : ModuloAcao → Consulta) (c : Claims) (e : Bool) (pares : List ModuloAcao)
    → Termina (varrer consultar c e pares) (Libera consultar c pares)
unfolding varrer
varrer-Libera consultar c true [] = inr (inr refl, λ x. x)
varrer-Libera consultar c false [] = inr (inl refl, λ x. x)
varrer-Libera consultar c e (par ∷ pares) = elim (Bool-cases (canal_permite_acao c par.acao)) [
  | inr k ↦ rw k (Termina-or _ _ _ (λ x. ground arith) (varrer-Libera consultar c e pares))
  | inl k ↦ rw k (
      visitar (consultar par) (varrer-Libera consultar c e pares)
        (varrer-Libera consultar c true pares))
]
  where
    visitar :
        (q : Consulta) {v w : Varredura}
        → Termina v (Libera consultar c pares)
        → Termina w (Libera consultar c pares)
        → Termina
            (elim q [ erro ↦ w | resposta permitido ↦ if permitido then permitida else v ])
            (((true ≡ true) × (q ≡ resposta true)) ⊎ Libera consultar c pares)
    visitar erro d f = Termina-or _ _ _ (λ x. ground arith) f
    visitar (resposta true) d f = inl (refl, inl (refl, refl))
    visitar (resposta false) d f = Termina-or _ _ _ (λ x. ground arith) d

conforme_varredura-decides :
    (v : Varredura) (seguir : Reply) (P : Type 0)
    → Termina v P
    → Decides (conforme_varredura v seguir) seguir P
conforme_varredura-decides v seguir P (inl (e, p)) = inl (rw e refl, p)
conforme_varredura-decides v seguir P (inr (inl e, n)) = inr (rw e (omega arith, refl), n)
conforme_varredura-decides v seguir P (inr (inr e, n)) = inr (rw e (omega arith, refl), n)

-- What the checker says of a pair.
abbrev pub consulta_do_par :
    Config → Request → PermissaoCheckerRemoto → Claims → ModuloAcao → Consulta
consulta_do_par cfg r f c par =
    f r.contexto (bearer_do_request r cfg.cookie_name) c.usuario_id par.modulo par.acao

-- `RequerQualquerPermissaoRemota` calls the handler exactly if the claims name a user and a company, and
-- there is a checker that says yes to some pair within the channel; errors on other pairs do not matter,
-- and an empty list of pairs denies.
pub requer_qualquer_permissao_remota-decides :
    (cfg : Config) (checker : Option PermissaoCheckerRemoto) (pares : List ModuloAcao)
    (next : Handler) (r : Request)
    → Decides (requer_qualquer_permissao_remota cfg checker pares next r) (next r) (
        ComEmpresa (claims_do_contexto r.contexto) (λ c.
          (f : PermissaoCheckerRemoto) × (checker ≡ some f)
          × Libera (consulta_do_par cfg r f c) c pares))
unfolding requer_qualquer_permissao_remota
requer_qualquer_permissao_remota-decides cfg checker pares next r =
    com_empresa-decides (claims_do_contexto r.contexto) _ (next r) _
      (λ c. com_pares checker pares c)
  where
    com_pares :
        (checker : Option PermissaoCheckerRemoto) (pares : List ModuloAcao) (c : Claims)
        → Decides
            (com_checker checker (λ f. sem_pares pares (
              conforme_varredura
                (varrer
                  (λ par.
                    f r.contexto
                      (bearer_do_request r cfg.cookie_name)
                      c.usuario_id
                      par.modulo
                      par.acao)
                  c
                  false
                  pares)
                (next r))))
            (next r)
            ((f : PermissaoCheckerRemoto) × (checker ≡ some f)
              × Libera
                  (λ par.
                    f r.contexto
                      (bearer_do_request r cfg.cookie_name)
                      c.usuario_id
                      par.modulo
                      par.acao)
                  c
                  pares)
    com_pares none ps c = inr ((omega arith, refl), λ (f, e, _). none_ne_some e)
    com_pares (some f) [] c = inr ((omega arith, refl), λ (g, e, x). x)
    com_pares (some f) (p ∷ ps) c =
        elim (conforme_varredura-decides _ (next r) _
          (varrer-Libera (consulta_do_par cfg r f c) c false (p ∷ ps))) [
            | inl (e, l) ↦ inl (e, (f, refl, l))
            | inr (d, n) ↦ inr (
              d,
              λ (g, e, l).
                  n (
                    subst (λ h. Libera (consulta_do_par cfg r h c) c (p ∷ ps)) (sym (some_inj e))
                      l),
            )
          ]

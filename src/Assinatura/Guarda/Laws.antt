-- ===== src/Assinatura/Guarda/Laws.antt =====
-- The gate of assinatura/guarda.go: when it refuses.
use deelp_pkg.Http.Status
use deelp_pkg.Assinatura.Guarda.{
  Situacao, contrato, sem_resposta, Checker, ConfigGuarda, liberada, bearer_da_assinatura,
  responder, conforme_situacao, com_tenant, requer_contrato_ativo, apenas_escrita,
}
use deelp_pkg.Prelude.{
  [], true, false, none, some, inl, inr, refl, Option, ◌≡◌, Bool-cases, ◌⊎◌, arith, none_ne_some,
  ◌≢◌, some_inj, sym, ◌∙◌,
}
use deelp_pkg.Http.{Reply, Request, Handler, served, denied}
use deelp_pkg.Texto.{Texto, vazio}
use deelp_pkg.Auth.Leitura.{eh_requisicao_de_leitura}
use deelp_pkg.Auth.Contexto.{empresa_id_claim_string}
use deelp_pkg.Texto.Laws.{vazio_iff}

-- The claims name a company, and the checker is there and says of it that its contract is not active.
abbrev pub SemContrato : ConfigGuarda → Option Checker → Request → Option Texto → Type 0
SemContrato cfg checker r o =
    (e : Texto) × (f : Checker) × (motivo : Texto) × (o ≡ some e)
    × (e ≢ [])
    × (checker ≡ some f)
    × (f (bearer_da_assinatura r cfg.cookie_name) e ≡ contrato false motivo)

abbrev pub IsBloqueado : ConfigGuarda → Option Checker → Request → Type 0
IsBloqueado cfg checker r =
    (liberada cfg.rotas_liberadas r.path ≡ false)
    × SemContrato cfg checker r (empresa_id_claim_string r.contexto)

-- A reply that asks for payment.
abbrev pub IsPagamento : Reply → Type 0
IsPagamento (served r) = ⊥
IsPagamento (denied status mensagem headers) = status ≡ Status.payment_required

-- The handler is called and `P` does not hold, or it does and the reply asks for payment.
abbrev pub Barra : Reply → Reply → Type 0 → Type 0
Barra reply seguir P = ((reply ≡ seguir) × (¬ P)) ⊎ (IsPagamento reply × P)

com_tenant-Barra :
    (cfg : ConfigGuarda) (checker : Option Checker) (r : Request) (o : Option Texto)
    (seguir : Reply)
    → Barra (com_tenant cfg checker r o seguir) seguir (SemContrato cfg checker r o)
unfolding responder
com_tenant-Barra cfg checker r none seguir = inl (refl, λ (e, f, m, h, _, _, _). none_ne_some h)
com_tenant-Barra cfg none r (some e) seguir = elim (Bool-cases (vazio e)) [
  | inl a ↦ inl (rw a refl, λ (_, f, m, _, _, h, _). none_ne_some h)
  | inr a ↦ inl (rw a refl, λ (_, f, m, _, _, h, _). none_ne_some h)
]
com_tenant-Barra cfg (some f) r (some e) seguir = elim (Bool-cases (vazio e)) [
  | inl a ↦ inl (rw a refl, λ (e', _, _, h, n, _, _). n (sym (some_inj h) ∙ (vazio_iff e).0 a))
  | inr a ↦ rw a (conforme (f (bearer_da_assinatura r cfg.cookie_name) e) refl a)
]
  where
    conforme :
        (q : Situacao)
        → f (bearer_da_assinatura r cfg.cookie_name) e ≡ q
        → vazio e ≡ false
        → Barra
            (conforme_situacao (f (bearer_da_assinatura r cfg.cookie_name) e) seguir)
            seguir
            (SemContrato cfg (some f) r (some e))
    conforme sem_resposta h a =
        inl (rw h refl, λ (e', g, m, i, _, j, l). ground (arith, some_inj i, some_inj j))
    conforme (contrato true motivo) h a =
        inl (rw h refl, λ (e', g, m, i, _, j, l). ground (arith, some_inj i, some_inj j))
    conforme (contrato false motivo) h a =
        inr (rw h refl, (e, f, motivo, refl, ground (arith, vazio_iff e), refl, h))

-- The gate answers 402 exactly if the route is not exempt, the claims name a company, and the checker is
-- there and says that the company's contract is not active; in every other case, an error of the checker
-- included, it calls the handler.
pub requer_contrato_ativo-Barra :
    (cfg : ConfigGuarda) (checker : Option Checker) (next : Handler) (r : Request)
    → Barra (requer_contrato_ativo cfg checker next r) (next r) (IsBloqueado cfg checker r)
unfolding requer_contrato_ativo
requer_contrato_ativo-Barra cfg checker next r =
    elim (Bool-cases (liberada cfg.rotas_liberadas r.path)) [
      | inl a ↦ inl (rw a refl, λ (h, _). ground (arith, h, a))
      | inr a ↦
          elim (com_tenant-Barra cfg checker r (empresa_id_claim_string r.contexto) (next r)) [
            | inl (e, n) ↦ inl (rw a e, λ (_, h). n h)
            | inr (x, p) ↦ inr (rw a x, (a, p))
          ]
    ]

-- Behind `ApenasEscrita` the gate answers 402 exactly if moreover the request is not one that only reads;
-- else it calls the handler.
apenas_escrita-Barra :
    (cfg : ConfigGuarda) (checker : Option Checker) (next : Handler) (r : Request)
    → Barra
        (apenas_escrita (requer_contrato_ativo cfg checker) next r)
        (next r)
        ((eh_requisicao_de_leitura (some r) ≡ false) × IsBloqueado cfg checker r)
unfolding apenas_escrita
apenas_escrita-Barra cfg checker next r = elim (Bool-cases (eh_requisicao_de_leitura (some r))) [
  | inl a ↦ inl (rw a refl, λ (h, _). ground (arith, h, a))
  | inr a ↦ elim (requer_contrato_ativo-Barra cfg checker next r) [
    | inl (e, n) ↦ inl (rw a e, λ (_, h). n h)
    | inr (x, p) ↦ inr (rw a x, (a, p))
  ]
]

-- ===== src/Assinatura/HttpChecker.antt =====
-- assinatura/http_checker.go: the checker that asks cliente-service, behind a cache. `enviar` is the
-- HTTP exchange and the decoding of its body. A call of `Load` is one goroutine's, which no
-- other steps into; the interleavings are those of TtlCache/Load.
pub mod Laws
use deelp_pkg.Http.Status
use deelp_pkg.TtlCache.{Cache, new, delete}
use deelp_pkg.TtlCache.Load.{Outcome, Answer, load_alone, returned}
use deelp_pkg.Assinatura.Guarda.{Situacao, contrato, sem_resposta}
use deelp_pkg.Prelude.{
  [], false, none, some, pos, ◌||◌, ◌==◌, Bool, Option, ℕ, ℤ, if◌then◌else◌, ◌++◌, not,
}
use deelp_pkg.Texto.{Texto, codes, vazio}

-- The envelope of the answer.
pub record Envelope : Type 0 where
  pub sucesso : Bool
  pub contrato_ativo : Bool
  pub contrato_situacao : Texto

-- What comes back from the service: the status, and the envelope if the body is one.
pub record RespostaContrato : Type 0 where
  pub status : ℕ
  pub corpo : Option Envelope

-- `entradaCache`.
pub record EntradaContrato : Type 0 where
  pub ativo : Bool
  pub motivo : Texto

abbrev pub ttl_contrato : ℤ
ttl_contrato = pos 120000000000

abbrev pub ttl_bloqueado : ℤ
ttl_bloqueado = pos 10000000000

-- `HTTPChecker`.
pub record HttpCheckerContrato : Type 0 where
  pub base_url : Texto
  pub cache : Cache Texto EntradaContrato

-- `NewHTTPChecker`.
unfoldable pub new_http_checker_contrato : Texto → HttpCheckerContrato
new_http_checker_contrato base_url = record { base_url = base_url; cache = new (pos 10000) }

abbrev pub ler_envelope : Envelope → Option EntradaContrato
ler_envelope e =
    if not e.sucesso
    then none
    else some (record { ativo = e.contrato_ativo; motivo = e.contrato_situacao })

abbrev pub ler_resposta_contrato : RespostaContrato → Option EntradaContrato
ler_resposta_contrato r =
    if not (r.status == Status.ok)
    then none
    else elim r.corpo [ none ↦ none | some e ↦ ler_envelope e ]

-- `consultar`: `enviar` is given the URL and the Authorization header; `none` is an error.
unfoldable pub consultar_contrato :
    (Texto → Texto → Option RespostaContrato) → HttpCheckerContrato → Texto → Option EntradaContrato
consultar_contrato enviar c bearer =
    elim (enviar (c.base_url ++ codes "/cliente-service/v1/assinatura/contrato-situacao") bearer) [
      | none ↦ none
      | some r ↦ ler_resposta_contrato r
    ]

-- Go's zero value of an entry.
abbrev pub entrada_zero : EntradaContrato
entrada_zero = record { ativo = false; motivo = [] }

-- The loader of `ContratoAtivo`.
abbrev pub carregar_contrato : Option EntradaContrato → Outcome EntradaContrato (Unit {0})
carregar_contrato none = returned entrada_zero (pos 0) (some tt)
carregar_contrato (some e) = returned e (if not e.ativo then ttl_bloqueado else ttl_contrato) none

abbrev pub situacao_de : Option (Unit {0}) → EntradaContrato → Situacao
situacao_de none e = contrato e.ativo e.motivo
situacao_de (some _) e = sem_resposta

module _ (dec : Discrete Texto) where
  -- `ContratoAtivo`, from `now`; `depois` is when the loader has returned, `junto` what a call in flight gives it.
  unfoldable pub contrato_ativo :
      (Texto → Texto → Option RespostaContrato)
      → ℕ
      → ℕ
      → (ℕ → Answer EntradaContrato (Unit {0}))
      → HttpCheckerContrato
      → Texto
      → Texto
      → HttpCheckerContrato × Situacao
  contrato_ativo enviar now depois junto c bearer empresa_id =
      if vazio c.base_url || vazio bearer
      then (c, sem_resposta)
      else let (cache, (entrada, err)) =
          load_alone dec now depois junto c.cache empresa_id entrada_zero tt
            (carregar_contrato (consultar_contrato enviar c bearer)) in
        (record c { cache = cache }, situacao_de err entrada)

  -- `Invalidar`.
  unfoldable pub invalidar_contrato : HttpCheckerContrato → Texto → HttpCheckerContrato
  invalidar_contrato c empresa_id = record c { cache = delete dec c.cache empresa_id }

-- ===== src/Assinatura/HttpChecker/Laws.antt =====
-- How long an answer about a contract is kept.
use deelp_pkg.TtlCache.{Item}
use deelp_pkg.TtlCache.Load.{Answer}
use deelp_pkg.TtlCache.Entries.{Entries, Storable, load_alone-Entries}
use deelp_pkg.Assinatura.HttpChecker.{
  EntradaContrato, HttpCheckerContrato, RespostaContrato, carregar_contrato, consultar_contrato,
  contrato_ativo, entrada_zero,
}
use deelp_pkg.Texto.{Texto, vazio}
use deelp_pkg.Prelude.{
  none, some, inl, inr, ◌||◌, Option, ℕ, if◌then◌else◌, ◌≤◌, Bool-cases, ◌+◌, arith,
}

-- Two minutes for an active contract, ten seconds for another.
abbrev pub validade : EntradaContrato → ℕ
validade e = if e.ativo then 120000000000 else 10000000000

abbrev pub Fresca : ℕ → Texto → Item EntradaContrato → Type 0
Fresca agora k it = it.expires_at ≤ agora + validade it.value

module _ (dec : Discrete Texto) where
  carregar-Storable :
      (agora depois : ℕ) (k : Texto) (o : Option EntradaContrato)
      → depois ≤ agora
      → Storable (Fresca agora) dec depois k (carregar_contrato o)
  carregar-Storable agora depois k none h = tt
  carregar-Storable agora depois k (some e) h = λ p. ground arith

  -- If no answer in the cache expires later than ten seconds after an instant, or two minutes if its contract
  -- is active, a call of the checker whose loader has returned by that instant keeps it so.
  pub contrato_ativo-Fresca :
      (enviar : Texto → Texto → Option RespostaContrato) (agora now depois : ℕ)
      (junto : ℕ → Answer EntradaContrato (Unit {0})) (c : HttpCheckerContrato)
      (bearer empresa_id : Texto)
      → depois ≤ agora
      → Entries (Fresca agora) c.cache.items
      → Entries
          (Fresca agora)
          (contrato_ativo dec enviar now depois junto c bearer empresa_id).0.cache.items
  unfolding contrato_ativo
  contrato_ativo-Fresca enviar agora now depois junto c bearer empresa_id h k =
      elim (Bool-cases (vazio c.base_url || vazio bearer)) [
        | inl e ↦ rw e k
        | inr e ↦ rw e (
            load_alone-Entries (Fresca agora) dec now depois junto c.cache empresa_id entrada_zero
              tt (carregar_contrato (consultar_contrato enviar c bearer))
              (carregar-Storable agora depois empresa_id (consultar_contrato enviar c bearer) h) k)
      ]

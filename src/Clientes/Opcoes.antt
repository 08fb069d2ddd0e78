-- ===== src/Clientes/Opcoes.antt =====
-- What the options of a client promise.
use deelp_pkg.Clientes.{ConfigRedis, OpcoesRedis, opcoes_redis, validar_redis, ou_padrao}
use deelp_pkg.Prelude.{
  some, true, pos, inl, inr, refl, ℤ, ◌≡◌, Option-cases, arith, ltb_ℤ, none_ne_some, some_inj,
}
use mathlib.Core.Path.{subst}

abbrev pub IsPositivo : ℤ → Type 0
IsPositivo v = ltb_ℤ (pos 0) v ≡ true

-- Every limit of the pool and every timeout is positive.
pub record IsLimitado (o : OpcoesRedis) : Type 0 where
  pub dial : IsPositivo o.dial_timeout
  pub read : IsPositivo o.read_timeout
  pub write : IsPositivo o.write_timeout
  pub pool : IsPositivo o.pool_size
  pub idle : IsPositivo o.min_idle_conns
  pub espera : IsPositivo o.pool_timeout
  pub idle_time : IsPositivo o.conn_max_idle_time

ou_padrao-IsPositivo : (v padrao : ℤ) → IsPositivo padrao → IsPositivo (ou_padrao v padrao)
ou_padrao-IsPositivo v padrao h = ground arith

-- A configuration of Redis that is accepted gives options of which every timeout and every size is
-- positive, whatever the configuration says.
opcoes_redis-IsLimitado :
    (c : ConfigRedis) (o : OpcoesRedis) → opcoes_redis c ≡ some o → IsLimitado o
unfolding opcoes_redis
opcoes_redis-IsLimitado c o = elim (Option-cases (validar_redis c)) [
  | inr (e, h) ↦ rw (opcoes_redis, h) (λ k. absurd (none_ne_some k))
  | inl h ↦
      rw (opcoes_redis, h)
        (λ k. subst IsLimitado (some_inj k) (record {
          dial = ou_padrao-IsPositivo c.dial_timeout (pos 500000000) refl;
          read = ou_padrao-IsPositivo c.read_timeout (pos 300000000) refl;
          write = ou_padrao-IsPositivo c.write_timeout (pos 400000000) refl;
          pool = ou_padrao-IsPositivo c.pool_size (pos 30) refl;
          idle = ou_padrao-IsPositivo c.min_idle_conns (pos 3) refl;
          espera = ou_padrao-IsPositivo c.pool_timeout (pos 500000000) refl;
          idle_time = ou_padrao-IsPositivo c.conn_max_idle_time (pos 300000000000) refl;
        }))
]

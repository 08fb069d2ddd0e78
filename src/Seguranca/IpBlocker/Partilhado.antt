-- ===== src/Seguranca/IpBlocker/Partilhado.antt =====
-- seguranca/ip_blocker.go, where Redis is configured: the state that the replicas share. `S` is the state of the
-- server; a command gives back the state, and none for an error.
use deelp_pkg.Texto.{Texto, codes, vazio}
use deelp_pkg.Prelude.{
  [], ◌∷◌, false, none, some, pos, Option, ℕ, ℤ, Bool, if◌then◌else◌, ◌++◌, leb_ℤ, ltb_ℤ, ltb, ◌==◌,
  ◌≢◌, pos_part, ap, arith, take, drop,
}

-- The commands: `ttl` gives a duration, negative where the key has none.
pub record RedisIp (S : Type 0) : Type 0 where
  pub incr : S → Texto → S × Option ℤ
  pub expire : S → Texto → ℕ → S
  pub set : S → Texto → ℤ → ℕ → S
  pub del : S → Texto → S
  pub exists_key : S → Texto → Option ℕ
  pub ttl : S → Texto → Option ℤ

-- The fields of `IPBlockerConfig` that these methods read.
pub record IpBlockerRedis : Type 0 where
  pub max_tentativas : ℤ
  pub duracao_bloqueio : ℕ
  pub janela_tentativas : ℕ
  pub prefixo : Texto

-- `NewIPBlocker`: the prefix.
abbrev pub prefixo_ip : Texto → Texto
prefixo_ip p = if vazio p then codes "ipb:" else p

-- `chaveFalha` and `chaveBloq`.
abbrev pub chave_falha : IpBlockerRedis → Texto → Texto
chave_falha b ip = b.prefixo ++ (codes "f:" ++ ip)

abbrev pub chave_bloq : IpBlockerRedis → Texto → Texto
chave_bloq b ip = b.prefixo ++ (codes "b:" ++ ip)

module _ {S : Type 0} (redis : RedisIp S) (b : IpBlockerRedis) where
  abbrev com_janela : S → Texto → ℤ → S
  com_janela s ip (pos n) =
      if n == 1 then redis.expire s (chave_falha b ip) b.janela_tentativas else s
  com_janela s ip (ℤ.negsuc n) = s

  abbrev com_bloqueio : S → Texto → ℤ → S
  com_bloqueio s ip n =
      if leb_ℤ b.max_tentativas n
      then redis.del (redis.set s (chave_bloq b ip) n b.duracao_bloqueio) (chave_falha b ip)
      else s

  abbrev com_contagem : S → Texto → Option ℤ → S
  com_contagem s ip none = s
  com_contagem s ip (some n) = com_bloqueio (com_janela s ip n) ip n

  -- `registrarFalhaRedis`; its counter is read as an int of 64 bits.
  unfoldable pub registrar_falha_redis : S → Texto → S
  registrar_falha_redis s ip = let (s', n) = redis.incr s (chave_falha b ip) in com_contagem s' ip n

  -- The branches for Redis of `RegistrarSucesso`, `EstaBloqueado` and `Restante`.
  unfoldable pub registrar_sucesso_redis : S → Texto → S
  registrar_sucesso_redis s ip = redis.del s (chave_falha b ip)

  unfoldable pub esta_bloqueado_redis : S → Texto → Bool
  esta_bloqueado_redis s ip = elim (redis.exists_key s (chave_bloq b ip)) [
    | none ↦ false
    | some n ↦ ltb 0 n
  ]

  unfoldable pub restante_redis : S → Texto → ℕ
  restante_redis s ip = elim (redis.ttl s (chave_bloq b ip)) [
    | none ↦ 0
    | some t ↦ if ltb_ℤ t (pos 0) then 0 else pos_part t
  ]

append_ne : (p s t : Texto) → p ++ (codes "f:" ++ s) ≢ p ++ (codes "b:" ++ t)
append_ne [] s t e = absurd (ground (arith, ap (take 1) e))
append_ne (c ∷ p) s t e = append_ne p s t (ap (drop 1) e)

-- A counter is never a block: the keys of the two differ, whatever the addresses.
chave_falha-ne-chave_bloq :
    (b : IpBlockerRedis) (ip jp : Texto) → chave_falha b ip ≢ chave_bloq b jp
chave_falha-ne-chave_bloq b ip jp = append_ne b.prefixo ip jp

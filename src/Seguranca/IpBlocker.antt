-- ===== src/Seguranca/IpBlocker.antt =====
-- seguranca/ip_blocker.go. Instants and durations are nanoseconds, and an instant that is read is
-- not before those that were stored. This is the state in memory; Partilhado is that in Redis.
pub mod Laws
pub mod Partilhado
pub mod Registro
pub mod History
use deelp_pkg.Texto.{Texto}
use deelp_pkg.Mapa.{Mapa, lookup, put, remove, retain}
use deelp_pkg.Http.{Request, Reply, Handler, denied}
use deelp_pkg.Http.Status
use deelp_pkg.Seguranca.Ip.{ip_do_request}
use deelp_pkg.Prelude.{
  [], ◌∷◌, true, false, none, some, pos, Option, ℕ, ℤ, Bool, if◌then◌else◌, not, ◌+◌, ◌-◌, leb_ℤ,
  ltb,
}

-- The maps of `IPBlocker`, with the fields of its configuration that they need.
pub record IpBlocker : Type 0 where
  pub max_tentativas : ℤ
  pub duracao_bloqueio : ℕ
  pub bloqueios : Mapa Texto ℕ
  pub falhas : Mapa Texto ℕ

-- `NewIPBlocker`, without Redis.
unfoldable pub new_ip_blocker : ℤ → ℕ → IpBlocker
new_ip_blocker max_tentativas duracao_bloqueio = record {
  max_tentativas = max_tentativas;
  duracao_bloqueio = duracao_bloqueio;
  bloqueios = [];
  falhas = [];
}

-- `falhas[ip]`, zero where the key is missing.
abbrev pub contagem : Option ℕ → ℕ
contagem none = 0
contagem (some n) = n

-- `time.Since(bt) > DuracaoBloqueio`.
abbrev pub passou : ℕ → ℕ → ℕ → Bool
passou now duracao bt = ltb duracao (now - bt)

module _ (dec : Discrete Texto) where
  -- `RegistrarFalha`.
  unfoldable pub registrar_falha : ℕ → IpBlocker → Texto → IpBlocker
  registrar_falha now b ip =
      let n = contagem (lookup dec ip b.falhas) + 1 in
      let falhas = put dec ip n b.falhas in
      if leb_ℤ b.max_tentativas (pos n)
      then record b { bloqueios = put dec ip now b.bloqueios; falhas = remove dec ip falhas }
      else record b { falhas = falhas }

  -- `RegistrarSucesso`.
  unfoldable pub registrar_sucesso : IpBlocker → Texto → IpBlocker
  registrar_sucesso b ip = record b { falhas = remove dec ip b.falhas }

  -- `EstaBloqueado`.
  unfoldable pub esta_bloqueado : ℕ → IpBlocker → Texto → IpBlocker × Bool
  esta_bloqueado now b ip = elim (lookup dec ip b.bloqueios) [
    | none ↦ (b, false)
    | some bt ↦
        if passou now b.duracao_bloqueio bt
        then (record b { bloqueios = remove dec ip b.bloqueios }, false)
        else (b, true)
  ]

  -- `Restante`.
  unfoldable pub restante : ℕ → IpBlocker → Texto → ℕ
  restante now b ip = elim (lookup dec ip b.bloqueios) [
    | none ↦ 0
    | some bt ↦ b.duracao_bloqueio - (now - bt)
  ]

  -- `Middleware`. `depois` is the later reading of the clock, in `Restante`; `format` is `Duration.String`.
  unfoldable pub ip_middleware :
      (ℕ → Texto) → ℕ → ℕ → IpBlocker → Handler → Request → IpBlocker × Reply
  ip_middleware format now depois b next r =
      let ip = ip_do_request r in
      let (b', bloqueado) = esta_bloqueado now b ip in
      (
        b',
        if bloqueado
            then denied Status.forbidden "IP bloqueado devido a múltiplas tentativas falhas."
                (("Retry-After", format (restante depois b' ip)) ∷ [])
            else next r,
      )

-- One round of `cleanup`.
unfoldable pub ip_cleanup : ℕ → IpBlocker → IpBlocker
unfolding retain
ip_cleanup now b = record b {
  bloqueios = retain (λ ip t. not (passou now b.duracao_bloqueio t)) b.bloqueios;
}

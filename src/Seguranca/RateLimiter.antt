-- ===== src/Seguranca/RateLimiter.antt =====
-- seguranca/rate_limiter.go. Instants and durations are nanoseconds; `janela` is not negative. The
-- Redis script is the argument `incrementar`; metrics and the ticker of `cleanup` are left out.
pub mod Laws
pub mod Window
pub mod History
use deelp_pkg.Texto.{Texto, codes, vazio}
use deelp_pkg.Mapa.{Mapa, lookup, put, retain}
use deelp_pkg.Http.{Request, Reply, Handler, denied}
use deelp_pkg.Http.Status
use deelp_pkg.Auth.Mask.{itoa}
use deelp_pkg.Seguranca.Ip.{ip_do_request}
use deelp_pkg.Prelude.{
  [], ◌∷◌, true, false, none, some, pos, ◌||◌, List, Option, if◌then◌else◌, ℕ, ℤ, Bool, not, ◌+◌,
  keep, leb_ℤ, ltb, pos_part, ◌++◌, ◌/◌, length, ◌*◌,
}

-- `limiterMemoria`, with the maps' keys under their decidable equality.
pub record LimiterMemoria : Type 0 where
  pub visits : Mapa Texto (List ℕ)
  pub limite : ℤ
  pub janela : ℕ

-- `newLimiterMemoria`.
abbrev pub new_limiter_memoria : ℤ → ℕ → LimiterMemoria
new_limiter_memoria limite janela = record { visits = []; limite = limite; janela = janela }

abbrev pub historico : Option (List ℕ) → List ℕ
historico none = []
historico (some hist) = hist

-- `t.After(now.Add(-janela))`.
abbrev pub na_janela : ℕ → ℕ → ℕ → Bool
na_janela now janela t = ltb now (t + janela)

-- `hist[len(hist)-1].Before(cutoff)` with `cutoff = now - 2 * janela`, false on an empty list.
abbrev pub ultimo_antes : ℕ → ℕ → List ℕ → Bool
ultimo_antes now janela [] = false
ultimo_antes now janela (t ∷ []) = ltb (t + janela * 2) now
ultimo_antes now janela (t ∷ s ∷ hist) = ultimo_antes now janela (s ∷ hist)

abbrev pub is_empty {ℓ} : {A : Type ℓ} → List A → Bool
is_empty [] = true
is_empty (_ ∷ _) = false

module _ (dec : Discrete Texto) where
  -- `allow`.
  unfoldable pub allow : ℕ → LimiterMemoria → Texto → LimiterMemoria × Bool
  allow now l ip =
      let hist = historico (lookup dec ip l.visits) in
      let novo = keep (na_janela now l.janela) hist in
      if leb_ℤ l.limite (pos (length novo))
      then (record l { visits = put dec ip novo l.visits }, false)
      else (record l { visits = put dec ip (novo ++ now ∷ []) l.visits }, true)

-- One round of `cleanup`.
unfoldable pub cleanup : ℕ → LimiterMemoria → LimiterMemoria
unfolding retain
cleanup now l = record l {
  visits = retain (λ ip hist. not (is_empty hist || ultimo_antes now l.janela hist)) l.visits;
}

-- `RateLimiterConfig`, without the responder. `incrementar` is the script on the configured Redis:
-- the counter of the key after the increment, or an error; `none` where no Redis is configured.
pub record RateLimiterConfig : Type 0 where
  pub limite : ℤ
  pub janela : ℕ
  pub prefixo : Texto
  pub incrementar : Option (Texto → ℕ → Option ℤ)

-- `NewRateLimiter`: the default prefix, and a memory limiter, which is used only where there is no Redis.
abbrev pub prefixo_ou_padrao : RateLimiterConfig → RateLimiterConfig
prefixo_ou_padrao cfg = if vazio cfg.prefixo then record cfg { prefixo = codes "rl:" } else cfg

pub record RateLimiter : Type 0 where
  pub cfg : RateLimiterConfig
  pub mem : LimiterMemoria

unfoldable pub new_rate_limiter : RateLimiterConfig → RateLimiter
new_rate_limiter cfg = record {
  cfg = prefixo_ou_padrao cfg;
  mem = new_limiter_memoria cfg.limite cfg.janela;
}

-- `allowRedis`: `none` is an error. The window goes to Redis in milliseconds.
abbrev conforme_quantidade : ℤ → Option ℤ → Option Bool
conforme_quantidade limite none = none
conforme_quantidade limite (some quantidade) = some (leb_ℤ quantidade limite)

unfoldable pub allow_redis : RateLimiterConfig → (Texto → ℕ → Option ℤ) → Texto → Option Bool
allow_redis cfg incrementar ip =
    conforme_quantidade cfg.limite (incrementar (cfg.prefixo ++ ip) (cfg.janela / 1000000))

module _ (dec : Discrete Texto) where
  -- `Allow`.
  unfoldable pub rate_allow : ℕ → RateLimiter → Texto → RateLimiter × Option Bool
  rate_allow now rl ip = elim rl.cfg.incrementar [
    | some incrementar ↦ (rl, allow_redis rl.cfg incrementar ip)
    | none ↦ let (mem, ok) = allow dec now rl.mem ip in (record rl { mem = mem }, some ok)
  ]

  -- `Middleware`: an error of the limiter lets the request pass.
  abbrev segundos : ℕ → ℕ
  segundos janela = (janela + 999999999) / 1000000000

  abbrev conforme_limite : RateLimiterConfig → Handler → Request → Option Bool → Reply
  conforme_limite cfg next r none = next r
  conforme_limite cfg next r (some true) = next r
  conforme_limite cfg next r (some false) =
      denied Status.too_many_requests "Muitas requisições. Tente novamente mais tarde." (
        ("X-RateLimit-Limit", itoa (pos_part cfg.limite))
        ∷ ("Retry-After", itoa (segundos cfg.janela))
        ∷ [])

  unfoldable pub rate_middleware : ℕ → RateLimiter → Handler → Request → RateLimiter × Reply
  rate_middleware now rl next r =
      let (rl', permitido) = rate_allow now rl (ip_do_request r) in
      (rl', conforme_limite rl.cfg next r permitido)

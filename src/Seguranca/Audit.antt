-- ===== src/Seguranca/Audit.antt =====
-- seguranca/audit.go: the search for suspicious patterns in a request. `unescape` is
-- `url.QueryUnescape`; an event that is recorded goes to the list beside the reply.
use deelp_pkg.Texto.{Texto, Unicode, codes, contains, to_lower}
use deelp_pkg.Http.{Request, Reply, Handler, denied}
use deelp_pkg.Http.Status
use mathlib.Core.Option
use deelp_pkg.Seguranca.Ip.{ip_do_request}
use deelp_pkg.Prelude.{
  [], ◌∷◌, none, some, ◌==◌, List, Option, String, map, Bool, if◌then◌else◌, ◌++◌,
}

-- `Evento`, without the time and the free details but the pattern.
pub record Evento : Type 0 where
  pub ip : Texto
  pub user_agent : Texto
  pub method : Texto
  pub path : Texto
  pub tipo : String
  pub padrao : Texto

pub record AuditConfig : Type 0 where
  pub padroes : List Texto
  pub bloquear_req : Bool

abbrev pub padroes_default : List Texto
padroes_default =
    codes "../"
    ∷ codes "<script"
    ∷ codes "union select"
    ∷ codes "'; drop"
    ∷ codes "exec("
    ∷ codes "eval("
    ∷ []

-- The patterns that `NewSecurityAudit` settles on.
abbrev pub padroes_de : List Texto → List Texto
padroes_de [] = padroes_default
padroes_de (p ∷ ps) = p ∷ ps

-- `strings.ReplaceAll(raw, "+", " ")`.
abbrev pub sem_mais : Texto → Texto
sem_mais s = map (λ c. if c == b'+' then b' ' else c) s

-- The text that is searched.
module _ (u : Unicode) (unescape : Texto → Option Texto) where
  unfoldable pub alvo : Request → Texto
  alvo r =
      let raw = r.path ++ (b'?' ∷ r.raw_query) in
      to_lower u (Option.get_or (unescape (sem_mais raw)) raw)

  -- The first pattern that is found.
  unfoldable pub primeiro_padrao : Texto → List Texto → Option Texto
  primeiro_padrao texto [] = none
  primeiro_padrao texto (p ∷ padroes) =
      let resto = primeiro_padrao texto padroes in if contains texto p then some p else resto

  -- `DetectarSuspeito`.
  unfoldable pub detectar_suspeito : AuditConfig → Request → Option Texto
  unfolding primeiro_padrao
  detectar_suspeito cfg r = primeiro_padrao (alvo r) (padroes_de cfg.padroes)

  -- `Registrar`.
  abbrev pub registrar : Request → String → Texto → Evento
  registrar r tipo padrao = record {
    ip = ip_do_request r;
    user_agent = r.header "User-Agent";
    method = r.method;
    path = r.path;
    tipo = tipo;
    padrao = padrao;
  }

  -- `Middleware`.
  unfoldable pub audit_middleware : AuditConfig → Handler → Request → Reply × List Evento
  audit_middleware cfg next r = elim (detectar_suspeito cfg r) [
    | none ↦ (next r, [])
    | some padrao ↦ (
      if cfg.bloquear_req then denied Status.bad_request "Requisição inválida" [] else next r,
      registrar r "padrao_suspeito" padrao ∷ [],
    )
  ]

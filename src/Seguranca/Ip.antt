-- ===== src/Seguranca/Ip.antt =====
-- seguranca/ip.go: the client's address.
use deelp_pkg.Texto.{Texto, vazio, trim_space}
use deelp_pkg.Http.{Request}
use mathlib.Core.Option
use deelp_pkg.Prelude.{[], ◌∷◌, none, some, ◌==◌, Option, if◌then◌else◌, not}

-- `strings.SplitN(s, ",", 2)[0]`: the part before the first comma.
unfoldable pub before_comma : Texto → Texto
before_comma [] = []
before_comma (c ∷ s) = let rest = before_comma s in if c == b',' then [] else c ∷ rest

-- `addr[:strings.LastIndex(addr, ":")]`, or `none` where there is no colon.
unfoldable pub before_last_colon : Texto → Option Texto
before_last_colon [] = none
before_last_colon (c ∷ s) = elim (before_last_colon s) [
  | some r ↦ some (c ∷ r)
  | none ↦ if c == b':' then some [] else none
]

-- `IPDoRequest`.
unfoldable pub ip_do_request : Request → Texto
ip_do_request r =
    let xff = r.header "X-Forwarded-For" in
    let xri = r.header "X-Real-IP" in
    if not (vazio xff)
    then trim_space (before_comma xff)
    else if not (vazio xri)
    then trim_space xri
    else if not (vazio r.remote_addr)
    then Option.get_or (before_last_colon r.remote_addr) r.remote_addr
    else []

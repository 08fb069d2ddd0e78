-- ===== src/Auth/Contexto.antt =====
-- auth/contexto.go: what handlers read from the context. `parse` is the parser of
-- github.com/google/uuid.
use deelp_pkg.Texto.{Texto, Unicode, vazio, trim_space, equal_fold}
use deelp_pkg.Auth.Claims.{Claims, Contexto, claims_do_contexto}
use deelp_pkg.Prelude.{
  ◌∷◌, false, none, some, pos, ◌&&◌, Bool, Option, ℕ, ◌++◌, if◌then◌else◌, ltb_ℤ, not, any, ◌/◌,
}

-- A string claim under its own key: `s, _ := ctx.Value(k).(string); if s == "" { return "", false }`.
abbrev nonempty : Option Texto → Option Texto
nonempty none = none
nonempty (some s) = if vazio s then none else some s

abbrev from_claims {ℓ} : {A : Type ℓ} → Option Claims → A → (Claims → A) → A
from_claims none d f = d
from_claims (some c) d f = f c

-- `EhPlatformAdminDoContexto`.
unfoldable pub eh_platform_admin_do_contexto : Contexto → Bool
unfolding claims_do_contexto
eh_platform_admin_do_contexto ctx =
    from_claims (claims_do_contexto ctx) false (λ c. c.is_platform_admin)

-- `PodeNoModuloDePlataforma`.
unfoldable pub pode_no_modulo_de_plataforma : Unicode → Contexto → Texto → Bool
unfolding claims_do_contexto
pode_no_modulo_de_plataforma u ctx modulo = from_claims (claims_do_contexto ctx) false (λ c.
    if not c.is_platform_admin
    then false
    else any (λ m. equal_fold u (trim_space m) modulo) c.plataforma_modulos)

-- `EhSessaoSuporte`.
unfoldable pub eh_sessao_suporte : Contexto → Bool
unfolding claims_do_contexto
eh_sessao_suporte ctx =
    from_claims (claims_do_contexto ctx) false (λ c. not (vazio c.suporte_empresa_id))

-- `SuportePodeEscrever`, with `agora.Unix()`.
unfoldable pub suporte_pode_escrever : Claims → ℕ → Bool
suporte_pode_escrever c agora =
    ltb_ℤ (pos 0) c.suporte_escrita_ate && ltb_ℤ (pos (agora / 1000000000)) c.suporte_escrita_ate

-- `EmailDoContexto`.
unfoldable pub email_do_contexto : Contexto → Option Texto
unfolding claims_do_contexto
email_do_contexto ctx = from_claims (claims_do_contexto ctx) none (λ c. nonempty (some c.email))

-- `NomeCompletoDoContexto`.
nome_completo : Claims → Texto
nome_completo c =
    let nome = trim_space (trim_space c.nome ++ (b' ' ∷ trim_space c.sobrenome)) in
    if vazio nome then trim_space c.email else nome

unfoldable pub nome_completo_do_contexto : Contexto → Option Texto
unfolding claims_do_contexto nome_completo
nome_completo_do_contexto ctx =
    from_claims (claims_do_contexto ctx) none (λ c. nonempty (some (nome_completo c)))

-- `EmpresaIdClaimString`, `DepartamentoIdDoContexto`, `ColaboracaoIdDoContexto`, `CargoIdDoContexto`.
unfoldable pub empresa_id_claim_string : Contexto → Option Texto
empresa_id_claim_string ctx = nonempty ctx.empresa_id

unfoldable pub departamento_id_do_contexto : Contexto → Option Texto
departamento_id_do_contexto ctx = nonempty ctx.departamento_id

unfoldable pub colaboracao_id_do_contexto : Contexto → Option Texto
colaboracao_id_do_contexto ctx = nonempty ctx.colaboracao_id

unfoldable pub cargo_id_do_contexto : Contexto → Option Texto
cargo_id_do_contexto ctx = nonempty ctx.cargo_id

module _ {Uuid : Type 0} (parse : Texto → Option Uuid) where
  abbrev parsed : Option Texto → Option Uuid
  parsed none = none
  parsed (some s) = parse s

  -- `SuporteEmpresaIdDoContexto`.
  unfoldable pub suporte_empresa_id_do_contexto : Contexto → Option Uuid
  unfolding claims_do_contexto
  suporte_empresa_id_do_contexto ctx =
      from_claims (claims_do_contexto ctx) none (λ c. parsed (nonempty (some c.suporte_empresa_id)))

  -- `SessaoSuporteIdDoContexto`.
  unfoldable pub sessao_suporte_id_do_contexto : Contexto → Option Uuid
  unfolding claims_do_contexto
  sessao_suporte_id_do_contexto ctx =
      from_claims (claims_do_contexto ctx) none (λ c. parsed (nonempty (some c.sessao_suporte_id)))

  -- `UsuarioIdDoContexto`, `EmpresaIdDoContexto`.
  unfoldable pub usuario_id_do_contexto : Contexto → Option Uuid
  usuario_id_do_contexto ctx = parsed (nonempty ctx.usuario_id)

  unfoldable pub empresa_id_do_contexto : Contexto → Option Uuid
  empresa_id_do_contexto ctx = parsed (nonempty ctx.empresa_id)

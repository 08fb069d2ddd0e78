-- ===== src/Auth/Claims.antt =====
-- auth/contexto.go: the claims of a token, and the request context that carries them.
use deelp_pkg.Texto.{Texto}
use deelp_pkg.Prelude.{[], false, none, some, pos, Bool, Option, List, ℤ}

pub record Claims : Type 0 where
  pub usuario_id : Texto
  pub email : Texto
  pub nome : Texto
  pub sobrenome : Texto
  pub empresa_id : Texto
  pub colaboracao_id : Texto
  pub departamento_id : Texto
  pub cargo_id : Texto
  pub is_platform_admin : Bool
  pub plataforma_modulos : List Texto
  pub suporte_empresa_id : Texto
  pub sessao_suporte_id : Texto
  pub suporte_escrita_ate : ℤ
  pub canal : Texto
  pub expira_em : ℤ

-- `Claims{}`.
abbrev pub claims_zero : Claims
claims_zero = record {
  usuario_id = [];
  email = [];
  nome = [];
  sobrenome = [];
  empresa_id = [];
  colaboracao_id = [];
  departamento_id = [];
  cargo_id = [];
  is_platform_admin = false;
  plataforma_modulos = [];
  suporte_empresa_id = [];
  sessao_suporte_id = [];
  suporte_escrita_ate = pos 0;
  canal = [];
  expira_em = pos 0;
}

-- A `context.Context`, as far as the six keys of the package: `none` where a key has no value.
pub record Contexto : Type 0 where
  pub claims : Option Claims
  pub usuario_id : Option Texto
  pub empresa_id : Option Texto
  pub colaboracao_id : Option Texto
  pub departamento_id : Option Texto
  pub cargo_id : Option Texto

-- `context.Background()`.
abbrev pub background : Contexto
background = record {
  claims = none;
  usuario_id = none;
  empresa_id = none;
  colaboracao_id = none;
  departamento_id = none;
  cargo_id = none;
}

-- `ComClaims`.
unfoldable pub com_claims : Contexto → Claims → Contexto
com_claims ctx c = record ctx {
  claims = some c;
  usuario_id = some c.usuario_id;
  empresa_id = some c.empresa_id;
  colaboracao_id = some c.colaboracao_id;
  departamento_id = some c.departamento_id;
  cargo_id = some c.cargo_id;
}

-- `ClaimsDoContexto`.
unfoldable pub claims_do_contexto : Contexto → Option Claims
claims_do_contexto ctx = ctx.claims

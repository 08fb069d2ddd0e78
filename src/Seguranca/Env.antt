-- ===== src/Seguranca/Env.antt =====
-- seguranca/env.go: the checks of the production configuration.
use deelp_pkg.Texto.{Texto, codes, vazio, eq_texto, trim_space}
use deelp_pkg.Prelude.{none, some, ◌||◌, Bool, Option, if◌then◌else◌, not}

pub record ConfigProducao : Type 0 where
  pub production : Bool
  pub secret_key : Texto
  pub cors_origin : Texto

pub data ErroDeConfig : Type 0 where
  secret_key_ausente cors_origin_curinga : ErroDeConfig

-- `ValidarConfigProducao`: the error, if any.
unfoldable pub validar_config_producao : ConfigProducao → Option ErroDeConfig
validar_config_producao c =
    let origin = trim_space c.cors_origin in
    if not c.production
    then none
    else if vazio (trim_space c.secret_key)
    then some secret_key_ausente
    else if vazio origin || eq_texto origin (codes "*")
    then some cors_origin_curinga
    else none

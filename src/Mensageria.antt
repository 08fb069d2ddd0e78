-- ===== src/Mensageria.antt =====
-- mensageria/mensageria.go: the configuration of a connection; its children model the publisher, the
-- consumption, the manager of the connection and its reconnection.
pub mod Consumo
pub mod Declaracao
pub mod Gerenciador
pub mod Publisher
pub mod Reconexao
use deelp_pkg.Texto.{Texto, codes, vazio, trim_space}
use deelp_pkg.Auth.Mask.{itoa}
use deelp_pkg.Prelude.{none, some, pos, Option, ℤ, ◌++◌, if◌then◌else◌, pos_part, leb_ℤ}

-- `Config`.
pub record ConfigAmqp : Type 0 where
  pub host : Texto
  pub port : ℤ
  pub user : Texto
  pub password : Texto
  pub vhost : Texto

pub data ErroDeConfigAmqp : Type 0 where
  host_obrigatorio port_invalido user_obrigatorio : ErroDeConfigAmqp

-- `validar`: the error, if any.
unfoldable pub validar_amqp : ConfigAmqp → Option ErroDeConfigAmqp
validar_amqp c =
    if vazio (trim_space c.host)
    then some host_obrigatorio
    else if leb_ℤ c.port (pos 0)
    then some port_invalido
    else if vazio (trim_space c.user)
    then some user_obrigatorio
    else none

-- `urlAMQP`, of a configuration that `validar` accepts; `query_escape` is `url.QueryEscape`.
unfoldable pub url_amqp : (Texto → Texto) → ConfigAmqp → Texto
url_amqp query_escape c =
    codes "amqp://"
    ++ query_escape c.user
    ++ codes ":"
    ++ query_escape c.password
    ++ codes "@"
    ++ c.host
    ++ codes ":"
    ++ itoa (pos_part c.port)
    ++ (if vazio c.vhost then codes "/" else c.vhost)

-- `Conectar`: `dial` opens the connection.
unfoldable pub conectar_amqp :
    {C : Type 0} → (Texto → Option C) → (Texto → Texto) → ConfigAmqp → Option C
conectar_amqp dial query_escape c = elim (validar_amqp c) [
  | some e ↦ none
  | none ↦ dial (url_amqp query_escape c)
]

-- ===== src/Clientes.antt =====
-- The configurations of the clients: cache/cache.go, mongodb/mongodb.go, postgres/postgres.go. A client
-- library is given the options that the code computes; opening and the ping are its own.
pub mod Redis
pub mod S3
pub mod Opcoes
use deelp_pkg.Auth.Mask.{itoa}
use deelp_pkg.Texto.{Texto, Unicode, codes, vazio, equal_fold, trim_space}
use deelp_pkg.Prelude.{
  [], ◌∷◌, none, some, pos, ◌&&◌, ◌==◌, Option, if◌then◌else◌, ℕ, ℤ, ◌++◌, leb_ℤ, not, pos_part,
  ◌*◌,
}

-- `ouPadrao` and `ouPadraoInt`, `ouPadraoDuration`.
abbrev pub ou_padrao : ℤ → ℤ → ℤ
ou_padrao v padrao = if leb_ℤ v (pos 0) then padrao else v

-- `ouPadraoUint`.
abbrev pub ou_padrao_uint : ℕ → ℕ → ℕ
ou_padrao_uint v padrao = if v == 0 then padrao else v

-- What `validar` refuses.
pub data ErroDeCliente : Type 0 where
  nome_obrigatorio host_obrigatorio porta_invalida usuario_obrigatorio : ErroDeCliente

-- cache: `Config`, `validar` and the options of `Conectar`.
pub record ConfigRedis : Type 0 where
  pub host : Texto
  pub port : ℤ
  pub password : Texto
  pub db : ℤ
  pub dial_timeout : ℤ
  pub read_timeout : ℤ
  pub write_timeout : ℤ
  pub pool_size : ℤ
  pub min_idle_conns : ℤ
  pub pool_timeout : ℤ
  pub conn_max_idle_time : ℤ

unfoldable pub validar_redis : ConfigRedis → Option ErroDeCliente
validar_redis c =
    if vazio (trim_space c.host)
    then some host_obrigatorio
    else if leb_ℤ c.port (pos 0)
    then some porta_invalida
    else none

pub record OpcoesRedis : Type 0 where
  pub addr : Texto
  pub password : Texto
  pub db : ℤ
  pub dial_timeout : ℤ
  pub read_timeout : ℤ
  pub write_timeout : ℤ
  pub pool_size : ℤ
  pub min_idle_conns : ℤ
  pub pool_timeout : ℤ
  pub conn_max_idle_time : ℤ

abbrev pub milissegundos : ℕ → ℤ
milissegundos n = pos (n * 1000000)

-- `none` is the error of `validar`.
unfoldable pub opcoes_redis : ConfigRedis → Option OpcoesRedis
opcoes_redis c = elim (validar_redis c) [
  | some e ↦ none
  | none ↦ some (record {
    addr = c.host ++ codes ":" ++ itoa (pos_part c.port);
    password = c.password;
    db = c.db;
    dial_timeout = ou_padrao c.dial_timeout (milissegundos 500);
    read_timeout = ou_padrao c.read_timeout (milissegundos 300);
    write_timeout = ou_padrao c.write_timeout (milissegundos 400);
    pool_size = ou_padrao c.pool_size (pos 30);
    min_idle_conns = ou_padrao c.min_idle_conns (pos 3);
    pool_timeout = ou_padrao c.pool_timeout (milissegundos 500);
    conn_max_idle_time = ou_padrao c.conn_max_idle_time (milissegundos 300000);
  })
]

-- mongodb: `Config`, `validar`, `uri` and the options of `Conectar`.
pub record ConfigMongo : Type 0 where
  pub uri : Texto
  pub host : Texto
  pub port : ℤ
  pub user : Texto
  pub password : Texto
  pub name : Texto
  pub auth_source : Texto
  pub auth_mechanism : Texto
  pub max_pool_size : ℕ
  pub min_pool_size : ℕ
  pub max_conn_idle_time : ℤ
  pub server_selection_timeout : ℤ
  pub connect_timeout : ℤ

unfoldable pub validar_mongo : ConfigMongo → Option ErroDeCliente
validar_mongo c =
    if vazio (trim_space c.name)
    then some nome_obrigatorio
    else if not (vazio (trim_space c.uri))
    then none
    else if vazio (trim_space c.host)
    then some host_obrigatorio
    else if leb_ℤ c.port (pos 0)
    then some porta_invalida
    else none

abbrev ou : Texto → Texto → Texto
ou t padrao = if vazio t then padrao else t

-- `query_escape` is `url.QueryEscape`; the port is one that `validar` accepts.
unfoldable pub uri_mongo : Unicode → (Texto → Texto) → ConfigMongo → Texto
uri_mongo u query_escape c =
    let base =
      codes "mongodb://"
      ++ query_escape c.user
      ++ codes ":"
      ++ query_escape c.password
      ++ codes "@"
      ++ c.host
      ++ codes ":"
      ++ itoa (pos_part c.port)
      ++ codes "/?authSource="
      ++ query_escape (ou c.auth_source (codes "admin")) in
    let mech = ou (trim_space c.auth_mechanism) (codes "SCRAM-SHA-256") in
    if not (vazio (trim_space c.uri))
    then trim_space c.uri
    else if not (vazio c.user) && not (vazio c.password)
    then if equal_fold u mech (codes "auto")
      then base
      else base ++ codes "&authMechanism=" ++ query_escape mech
    else codes "mongodb://" ++ c.host ++ codes ":" ++ itoa (pos_part c.port)

pub record OpcoesMongo : Type 0 where
  pub uri : Texto
  pub max_pool_size : ℕ
  pub min_pool_size : ℕ
  pub max_conn_idle_time : ℤ
  pub server_selection_timeout : ℤ
  pub connect_timeout : ℤ

unfoldable pub opcoes_mongo : Unicode → (Texto → Texto) → ConfigMongo → Option OpcoesMongo
opcoes_mongo u query_escape c = elim (validar_mongo c) [
  | some e ↦ none
  | none ↦ some (record {
    uri = uri_mongo u query_escape c;
    max_pool_size = ou_padrao_uint c.max_pool_size 100;
    min_pool_size = ou_padrao_uint c.min_pool_size 10;
    max_conn_idle_time = ou_padrao c.max_conn_idle_time (milissegundos 30000);
    server_selection_timeout = ou_padrao c.server_selection_timeout (milissegundos 5000);
    connect_timeout = ou_padrao c.connect_timeout (milissegundos 10000);
  })
]

-- postgres: `Config`, `validar` and the pool of `Conectar`.
pub record ConfigPg : Type 0 where
  pub host : Texto
  pub port : ℤ
  pub user : Texto
  pub password : Texto
  pub name : Texto
  pub ssl_mode : Texto
  pub max_open_conns : ℤ
  pub max_idle_conns : ℤ
  pub conn_max_lifetime : ℤ
  pub conn_max_idle_time : ℤ

unfoldable pub validar_pg : ConfigPg → Option ErroDeCliente
validar_pg c =
    if vazio (trim_space c.host)
    then some host_obrigatorio
    else if leb_ℤ c.port (pos 0)
    then some porta_invalida
    else if vazio (trim_space c.user)
    then some usuario_obrigatorio
    else if vazio (trim_space c.name)
    then some nome_obrigatorio
    else none

pub record OpcoesPg : Type 0 where
  pub dsn : Texto
  pub max_open_conns : ℤ
  pub max_idle_conns : ℤ
  pub conn_max_lifetime : ℤ
  pub conn_max_idle_time : ℤ

unfoldable pub opcoes_pg : ConfigPg → Option OpcoesPg
opcoes_pg c = elim (validar_pg c) [
  | some e ↦ none
  | none ↦ some (record {
    dsn =
        codes "host="
        ++ c.host
        ++ codes " port="
        ++ itoa (pos_part c.port)
        ++ codes " user="
        ++ c.user
        ++ codes " password="
        ++ c.password
        ++ codes " dbname="
        ++ c.name
        ++ codes " sslmode="
        ++ ou c.ssl_mode (codes "disable");
    max_open_conns = ou_padrao c.max_open_conns (pos 50);
    max_idle_conns = ou_padrao c.max_idle_conns (pos 20);
    conn_max_lifetime = ou_padrao c.conn_max_lifetime (milissegundos 1800000);
    conn_max_idle_time = ou_padrao c.conn_max_idle_time (milissegundos 300000);
  })
]

-- ===== src/Observabilidade/Endpoint.antt =====
-- observabilidade/endpoint.go, and the configuration in observabilidade/observabilidade.go and coletor.go.
-- `Url` holds what url.Parse finds in an address.
pub mod Laws
use deelp_pkg.Texto.{
  Texto, Unicode, codes, vazio, eq_texto, has_prefix, has_suffix, contains, trim_space, to_lower,
  trim_right_slash, trim_left_by, trim_right_by,
}
use deelp_pkg.Texto.Inteiro.{atoi}
use deelp_pkg.Prelude.{
  [], ◌∷◌, true, false, none, some, suc, pos, ◌&&◌, ◌||◌, ◌==◌, Bool, Option, ℕ, if◌then◌else◌, not,
  any, leb_ℤ, ltb, ◌++◌, List,
}

pub record Url : Type 0 where
  pub scheme : Texto
  pub hostname : Texto
  pub host : Texto
  pub port : Texto
  pub path : Texto
  pub user : Bool
  pub raw_query : Texto
  pub force_query : Bool
  pub fragment : Texto

-- `Protocolo`, with any other text.
pub data Protocolo : Type 0 where
  nao_dito auto grpc http : Protocolo
  desconhecido : Texto → Protocolo

-- `Config`; of a TLS configuration, whether it has InsecureSkipVerify.
pub record ConfigOtel : Type 0 where
  pub nome_servico : Texto
  pub endpoint : Texto
  pub protocolo : Protocolo
  pub tls : Option Bool

pub data ErroOtel : Type 0 where
  nome_obrigatorio endpoint_obrigatorio protocolo_desconhecido : ErroOtel
  endpoint_invalido esquema_invalido partes_invalidas porta_invalida : ErroOtel
  host_invalido prefixo_invalido tls_inseguro tls_com_http : ErroOtel

-- `validar`: the error, if any.
abbrev do_protocolo : Protocolo → Option ErroOtel
do_protocolo nao_dito = none
do_protocolo auto = none
do_protocolo grpc = none
do_protocolo http = none
do_protocolo (desconhecido p) = some protocolo_desconhecido

unfoldable pub validar : ConfigOtel → Option ErroOtel
validar c =
    if vazio (trim_space c.nome_servico)
    then some nome_obrigatorio
    else if vazio (trim_space c.endpoint)
    then some endpoint_obrigatorio
    else do_protocolo c.protocolo

-- `endpointConfig`.
pub record EndpointConfig : Type 0 where
  pub host : Texto
  pub path : Texto
  pub secure : Bool

pub data Endereco : Type 0 where
  erro : ErroOtel → Endereco
  resolvido : EndpointConfig → Endereco

-- `strings.Count(s, ":")`.
abbrev conta : ℕ → Texto → ℕ
conta k [] = 0
conta k (c ∷ s) = let resto = conta k s in if c == k then suc resto else resto

abbrev porta_valida : Texto → Bool
porta_valida p =
    vazio p
    || (not (atoi p).erro && leb_ℤ (pos 1) (atoi p).valor && leb_ℤ (atoi p).valor (pos 65535))

abbrev com_tls : Option Bool → Bool
com_tls none = false
com_tls (some inseguro) = true

abbrev inseguro : Option Bool → Bool
inseguro none = false
inseguro (some i) = i

-- The first of the guards that holds refuses.
unfoldable pub primeira : List (Bool × ErroOtel) → Endereco → Endereco
primeira [] r = r
primeira ((b, x) ∷ gs) r = let resto = primeira gs r in if b then erro x else resto

-- `secureProxy`: the error, or the proxy of the environment.
unfoldable pub secure_proxy : {A : Type 0} → Texto → A → Option A
secure_proxy scheme proxy = if not (eq_texto scheme (codes "https")) then none else some proxy

module _ (u : Unicode) (parse : Texto → Option Url) where
  -- `protocoloEfetivo`.
  abbrev pelo_endpoint : Texto → Protocolo
  pelo_endpoint endpoint =
      let ep = to_lower u (trim_space endpoint) in
      if has_prefix ep (codes "http://") || has_prefix ep (codes "https://") then http else grpc

  unfoldable pub protocolo_efetivo : ConfigOtel → Protocolo
  protocolo_efetivo c = elim c.protocolo [
    | grpc ↦ grpc
    | http ↦ http
    | nao_dito ↦ pelo_endpoint c.endpoint
    | auto ↦ pelo_endpoint c.endpoint
    | desconhecido p ↦ pelo_endpoint c.endpoint
  ]

  abbrev eh_grpc : Protocolo → Bool
  eh_grpc grpc = true
  eh_grpc nao_dito = false
  eh_grpc auto = false
  eh_grpc http = false
  eh_grpc (desconhecido p) = false

  -- `resolveEndpoint`, on the parts of the address: its refusals, in their order, and then on its text.
  abbrev pub recusas : ConfigOtel → Bool → Url → List (Bool × ErroOtel)
  recusas c has_scheme a =
      (
        not (eq_texto a.scheme (codes "http")) && not (eq_texto a.scheme (codes "https")),
        esquema_invalido,
      )
      ∷ (
        vazio a.hostname
            || a.user
            || not (vazio a.raw_query)
            || a.force_query
            || not (vazio a.fragment),
        partes_invalidas,
      )
      ∷ (not (porta_valida a.port), porta_invalida)
      ∷ (
        has_suffix a.host (codes ":")
            || (ltb 1 (conta b':' a.host) && not (has_prefix a.host (codes "["))),
        host_invalido,
      )
      ∷ (
        not (vazio a.path)
            && not (eq_texto a.path (codes "/"))
            && (not has_scheme || eh_grpc (protocolo_efetivo c)),
        prefixo_invalido,
      )
      ∷ (inseguro c.tls, tls_inseguro)
      ∷ (has_scheme && eq_texto a.scheme (codes "http") && com_tls c.tls, tls_com_http)
      ∷ []

  abbrev pub aceita : ConfigOtel → Url → EndpointConfig
  aceita c a = record {
    host = a.host;
    path = trim_right_slash a.path;
    secure = eq_texto a.scheme (codes "https") || com_tls c.tls;
  }

  unfoldable pub resolver_url : ConfigOtel → Bool → Url → Endereco
  unfolding primeira
  resolver_url c has_scheme a = primeira (recusas c has_scheme a) (resolvido (aceita c a))

  abbrev com_url : ConfigOtel → Bool → Option Url → Endereco
  com_url c has_scheme none = erro endpoint_invalido
  com_url c has_scheme (some a) = resolver_url c has_scheme a

  unfoldable pub resolve_endpoint : ConfigOtel → Endereco
  resolve_endpoint c =
      let raw = trim_space c.endpoint in
      if contains raw (codes "://")
      then com_url c true (parse raw)
      else com_url c false (parse (codes "http://" ++ raw))

  -- `Habilitada`, on the value of the environment.
  unfoldable pub habilitada : Texto → Bool
  habilitada env = not (
      any (eq_texto (to_lower u (trim_space env))) (
        codes "false"
        ∷ codes "0"
        ∷ codes "off"
        ∷ codes "nao"
        ∷ codes "não"
        ∷ codes "no"
        ∷ codes "desabilitada"
        ∷ []))

  -- `enderecoSondagem`; `tem_porta` is that net.SplitHostPort takes the host, and the address is the host
  -- and the port of net.JoinHostPort.
  abbrev colchete : ℕ → Bool
  colchete c = c == b'[' || c == b']'

  unfoldable pub endereco_sondagem :
      (Texto → Bool) → (Texto → Texto → Texto) → ConfigOtel → EndpointConfig → Texto
  endereco_sondagem tem_porta juntar c e =
      if tem_porta e.host
      then e.host
      else juntar (trim_right_by colchete (trim_left_by colchete e.host)) (
          if e.secure
          then codes "443"
          else if eh_grpc (protocolo_efetivo c)
          then codes "4317"
          else codes "4318")

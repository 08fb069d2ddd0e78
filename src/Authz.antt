-- ===== src/Authz.antt =====
-- authz/http_checker.go: the permission checker that asks autenticacao-service, behind a cache.
-- `enviar` is the HTTP exchange and the decoding of its body, `chave` the hash of user and bearer. A call
-- of `Load` is one goroutine's, which no other steps into; the interleavings are those of TtlCache/Load.
pub mod Laws
use deelp_pkg.TtlCache.{Cache, new, set, delete_func}
use deelp_pkg.TtlCache.Load.{Outcome, Answer, load_alone, returned}
use deelp_pkg.Mapa.{Mapa, lookup}
use deelp_pkg.Auth.Permissao.{Consulta, resposta, erro}
use deelp_pkg.Auth.Contexto.{eh_sessao_suporte}
use deelp_pkg.Prelude.{
  [], true, false, none, some, pos, ◌||◌, List, Option, ℕ, ℤ, Bool, if◌then◌else◌, any, ltb, not,
  ◌++◌, leb,
}
use deelp_pkg.Texto.{
  Texto, Unicode, eq_texto, trim_right_slash, trim_space, vazio, codes, has_prefix, to_lower,
}
use deelp_pkg.Auth.Claims.{Contexto}

-- The actions of each module.
abbrev pub Permissoes : Type 0
Permissoes = Mapa Texto (List Texto)

-- `permissoesEmCache`.
pub record PermissoesEmCache : Type 0 where
  pub usuario_id : Texto
  pub permissoes : Permissoes

-- What comes back: the status, and the envelope's `sucesso` and `conteudo` if the body is one.
pub record RespostaPermissoes : Type 0 where
  pub status : ℕ
  pub corpo : Option (Bool × Permissoes)

-- The exchange, given the URL and the Authorization header if one is set; `none` is an error.
abbrev pub Enviar : Type 0
Enviar = Texto → Option Texto → Option RespostaPermissoes

abbrev pub ttl_permissoes : ℤ
ttl_permissoes = pos 120000000000

-- `HTTPChecker`.
pub record HttpChecker : Type 0 where
  pub base_url : Texto
  pub cache : Cache Texto PermissoesEmCache

-- `NewHTTPChecker`.
unfoldable pub new_http_checker : Texto → HttpChecker
new_http_checker base_url = record {
  base_url = trim_right_slash (trim_space base_url);
  cache = new (pos 10000);
}

-- `contem`.
abbrev pub contem : List Texto → Texto → Bool
contem acoes acao = any (λ a. eq_texto a acao) acoes

-- The Authorization header that `consultar` sets.
unfoldable pub cabecalho : Unicode → Texto → Option Texto
cabecalho u bearer =
    if vazio bearer
    then none
    else if has_prefix (to_lower u bearer) (codes "bearer ")
    then some bearer
    else some (codes "Bearer " ++ bearer)

abbrev pub ler_corpo : Option (Bool × Permissoes) → Option (Permissoes × Bool)
ler_corpo none = none
ler_corpo (some (sucesso, conteudo)) =
    if not sucesso then some ([], false) else some (conteudo, true)

abbrev pub ler_resposta : Option RespostaPermissoes → Option (Permissoes × Bool)
ler_resposta none = none
ler_resposta (some r) = if ltb r.status 200 || leb 300 r.status then none else ler_corpo r.corpo

-- `consultar`.
unfoldable pub consultar :
    Unicode → Enviar → HttpChecker → Texto → Texto → Option (Permissoes × Bool)
consultar u enviar c bearer usuario_id = ler_resposta (
    enviar
      (c.base_url
        ++ codes "/autenticacao-service/v1/usuarios/"
        ++ usuario_id
        ++ codes "/permissoes")
      (cabecalho u bearer))

-- Go's zero value of an entry.
abbrev pub permissoes_zero : PermissoesEmCache
permissoes_zero = record { usuario_id = []; permissoes = [] }

-- The loader of `TemPermissao`: an answer without success has no ttl.
abbrev pub carregar : Texto → Option (Permissoes × Bool) → Outcome PermissoesEmCache (Unit {0})
carregar usuario_id none = returned permissoes_zero (pos 0) (some tt)
carregar usuario_id (some (permissoes, sucesso)) =
    if not sucesso
    then returned permissoes_zero (pos 0) none
    else returned (record { usuario_id = usuario_id; permissoes = permissoes }) ttl_permissoes none

module _ (dec : Discrete Texto) where
  -- `contem(permissoes[modulo], acao)`; a missing module has no actions.
  abbrev pub acoes_de : Option (List Texto) → List Texto
  acoes_de none = []
  acoes_de (some acoes) = acoes

  abbrev pub permite : Permissoes → Texto → Texto → Bool
  permite permissoes modulo acao = contem (acoes_de (lookup dec modulo permissoes)) acao

  -- `guardar`.
  unfoldable pub guardar : ℕ → HttpChecker → Texto → Texto → Permissoes → HttpChecker
  guardar now c chave usuario_id permissoes = record c {
    cache =
        set dec now c.cache chave (record { usuario_id = usuario_id; permissoes = permissoes })
          ttl_permissoes;
  }

  -- `Invalidar`.
  unfoldable pub invalidar : HttpChecker → Texto → HttpChecker
  invalidar c usuario_id = record c {
    cache = delete_func c.cache (λ chave v. eq_texto v.usuario_id usuario_id);
  }

  abbrev pub sem_cache : Option (Permissoes × Bool) → Texto → Texto → Consulta
  sem_cache none modulo acao = erro
  sem_cache (some (permissoes, _)) modulo acao = resposta (permite permissoes modulo acao)

  abbrev pub encontrado : Option (Unit {0}) → PermissoesEmCache → Texto → Texto → Consulta
  encontrado none v modulo acao = resposta (permite v.permissoes modulo acao)
  encontrado (some _) v modulo acao = erro

  -- `TemPermissao`, from `now`; `depois` is when the loader has returned, `junto` what a call in flight gives it.
  unfoldable pub tem_permissao :
      Unicode
      → Enviar
      → (Texto → Texto → Texto)
      → ℕ
      → ℕ
      → (ℕ → Answer PermissoesEmCache (Unit {0}))
      → HttpChecker
      → Contexto
      → Texto
      → Texto
      → Texto
      → Texto
      → HttpChecker × Consulta
  tem_permissao u enviar chave now depois junto c ctx bearer usuario_id modulo acao =
      if vazio c.base_url
      then (c, erro)
      else if eh_sessao_suporte ctx
      then (c, sem_cache (consultar u enviar c bearer usuario_id) modulo acao)
      else let (cache, (v, err)) =
          load_alone dec now depois junto c.cache (chave usuario_id bearer) permissoes_zero tt
            (carregar usuario_id (consultar u enviar c bearer usuario_id)) in
        (record c { cache = cache }, encontrado err v modulo acao)

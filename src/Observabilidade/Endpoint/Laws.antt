-- ===== src/Observabilidade/Endpoint/Laws.antt =====
-- What an accepted address of the collector promises.
use deelp_pkg.Texto.{Texto, Unicode, codes, eq_texto, contains, trim_space}
use deelp_pkg.Observabilidade.Endpoint.{
  Url, ConfigOtel, Endereco, EndpointConfig, erro, resolvido, com_tls, inseguro, com_url,
  resolver_url, resolve_endpoint, ErroOtel, primeira, recusas, aceita,
}
use deelp_pkg.Texto.Laws.{vazio_iff, eq_texto→eq, eq→eq_texto}
use deelp_pkg.Prelude.{
  true, false, some, none, [], Bool, Option, ◌≡◌, ◌⊎◌, ◌≢◌, refl, ap, if◌then◌else◌, arith, ◌∷◌,
  List, All, sym, inl, inr, ◌&&◌, not, Bool-cases, ◌++◌,
}

-- The address has http or https, a host, and no credentials, query or fragment; TLS is used with https and
-- wherever a TLS configuration is given, which is not one that skips the verification and does not go with an
-- explicit http.
pub record IsSeguro (c : ConfigOtel) (has_scheme : Bool) (a : Url) (e : EndpointConfig)
    : Type 0 where
  pub esquema : (a.scheme ≡ codes "http") ⊎ (a.scheme ≡ codes "https")
  pub tem_host : a.hostname ≢ []
  pub sem_credenciais : a.user ≡ false
  pub sem_query : a.raw_query ≡ []
  pub sem_fragmento : a.fragment ≡ []
  pub mesmo_host : e.host ≡ a.host
  pub tls_verifica : inseguro c.tls ≡ false
  pub usa_tls : com_tls c.tls ≡ true → e.secure ≡ true
  pub https_usa_tls : a.scheme ≡ codes "https" → e.secure ≡ true
  pub sem_mistura : has_scheme ≡ true → a.scheme ≡ codes "http" → e.secure ≡ false

abbrev eh_erro : Endereco → Bool
eh_erro (erro x) = true
eh_erro (resolvido e) = false

abbrev config_de : EndpointConfig → Endereco → EndpointConfig
config_de d (erro x) = d
config_de d (resolvido e) = e

-- The guards that were passed.
primeira-resolvido :
    (gs : List (Bool × ErroOtel)) (r : Endereco) (e : EndpointConfig)
    → primeira gs r ≡ resolvido e
    → All (λ g. g.0 ≡ false) gs × (r ≡ resolvido e)
unfolding primeira
primeira-resolvido [] r e h = (tt, h)
primeira-resolvido ((true, x) ∷ gs) r e h = absurd (ground (arith, ap eh_erro h))
primeira-resolvido ((false, x) ∷ gs) r e h =
    let (a, b) = primeira-resolvido gs r e h in ((refl, a), b)

http_ou_https :
    (t : Texto)
    → (not (eq_texto t (codes "http")) && not (eq_texto t (codes "https"))) ≡ false
    → (t ≡ codes "http") ⊎ (t ≡ codes "https")
http_ou_https t h = elim (Bool-cases (eq_texto t (codes "http"))) [
  | inl e ↦ inl (eq_texto→eq t (codes "http") e)
  | inr e ↦ inr (eq_texto→eq t (codes "https") (ground arith))
]

http_ne_https : (t : Texto) → t ≡ codes "http" → eq_texto t (codes "https") ≡ false
unfolding eq_texto
http_ne_https t e = rw e refl

module _ (u : Unicode) (parse : Texto → Option Url) where
  resolver_url-IsSeguro :
      (c : ConfigOtel) (h : Bool) (a : Url) (e : EndpointConfig)
      → resolver_url u parse c h a ≡ resolvido e
      → IsSeguro c h a e
  unfolding resolver_url
  resolver_url-IsSeguro c h a e k =
      let ((g1, (g2, (g3, (g4, (g5, (g6, (g7, _))))))), f) =
        primeira-resolvido (recusas u parse c h a) (resolvido (aceita u parse c a)) e k in
      let igual : e ≡ aceita u parse c a = sym (ap (config_de e) f) in
      rw igual (record {
        esquema = http_ou_https a.scheme g1;
        tem_host = λ n. ground (arith, (vazio_iff a.hostname).1 n);
        sem_credenciais = ground arith;
        sem_query = (vazio_iff a.raw_query).0 (ground arith);
        sem_fragmento = (vazio_iff a.fragment).0 (ground arith);
        mesmo_host = refl;
        tls_verifica = g6;
        usa_tls = λ t. ground arith;
        https_usa_tls = λ t. ground (arith, eq→eq_texto a.scheme (codes "https") t);
        sem_mistura =
            λ t s. ground (arith, eq→eq_texto a.scheme (codes "http") s, http_ne_https a.scheme s);
      })

  -- The address that was parsed: with `http://` in front where it has no scheme.
  abbrev pub Interpreta : ConfigOtel → Bool → Url → Type 0
  Interpreta c h a =
      (h ≡ contains (trim_space c.endpoint) (codes "://"))
      × (parse (if h then trim_space c.endpoint else codes "http://" ++ trim_space c.endpoint)
          ≡ some a)

  com_url-IsSeguro :
      (c : ConfigOtel) (h : Bool) (o : Option Url) (e : EndpointConfig)
      → com_url u parse c h o ≡ resolvido e
      → (a : Url) × (o ≡ some a) × IsSeguro c h a e
  com_url-IsSeguro c h none e k = absurd (ground (arith, ap eh_erro k))
  com_url-IsSeguro c h (some a) e k = (a, refl, resolver_url-IsSeguro c h a e k)

  -- An address of the collector that is accepted has the scheme http or https, a host, and neither
  -- credentials nor query nor fragment; the connection uses TLS with https and wherever a TLS configuration
  -- is given, which then verifies, and none with an `http://` that was written.
  pub resolve_endpoint-IsSeguro :
      (c : ConfigOtel) (e : EndpointConfig)
      → resolve_endpoint u parse c ≡ resolvido e
      → (h : Bool) × (a : Url) × Interpreta c h a × IsSeguro c h a e
  unfolding resolve_endpoint
  resolve_endpoint-IsSeguro c e =
      elim (Bool-cases (contains (trim_space c.endpoint) (codes "://"))) [
        | inl g ↦
            rw g (λ k. let (a, b, d) = com_url-IsSeguro c true _ e k in (true, a, (refl, b), d))
        | inr g ↦
            rw g (λ k. let (a, b, d) = com_url-IsSeguro c false _ e k in (false, a, (refl, b), d))
      ]

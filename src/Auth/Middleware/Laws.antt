-- ===== src/Auth/Middleware/Laws.antt =====
-- What `Autenticacao` lets pass.
use text.Mathlib.TextEquality.{eq_iff}
use deelp_pkg.Texto.{Texto, Unicode, vazio, equal_fold}
use deelp_pkg.Texto.Laws.{vazio_iff}
use deelp_pkg.Http.{Request, Reply, Handler, denied, served}
use deelp_pkg.Auth.Claims.{Claims, com_claims}
use deelp_pkg.Auth.Token.{Jwt, Token, chave_hmac, eh_refresh_token, extrair_claims}
use deelp_pkg.Auth.Canal.{recusa_do_canal}
use deelp_pkg.Auth.Middleware.{
  Config, token_do_request, recusa_de_suporte, com_identidade, com_token, autenticacao, str_eq,
}
use deelp_pkg.Prelude.{
  [], true, false, none, some, inl, inr, ◌&&◌, ◌||◌, not, ℕ, ◌≡◌, Bool-cases, ◌≢◌, ◌⊎◌,
  Option-cases, arith, refl, ◌≤◌, Bool,
}
use deelp_pkg.Auth.Leitura.{eh_requisicao_de_leitura}
use deelp_pkg.Auth.Contexto.{suporte_pode_escrever}

-- The handler is not called: an error status is written, with no header of the middleware's.
abbrev pub IsDenied : Reply → Type 0
IsDenied (served r) = ⊥
IsDenied (denied status mensagem cabecalhos) = (400 ≤ status) × (cabecalhos ≡ [])

-- The claims of a support session that passes.
pub record IsSuporteValido (u : Unicode) (agora : ℕ) (r : Request) (c : Claims) : Type 0 where
  pub empresa : c.empresa_id ≢ []
  pub mesma : equal_fold u c.suporte_empresa_id c.empresa_id ≡ true
  pub sessao : c.sessao_suporte_id ≢ []
  pub escrita : (eh_requisicao_de_leitura (some r) ≡ true) ⊎ (suporte_pode_escrever c agora ≡ true)

-- A request that passes with the claims `c`.
pub record IsAutenticado (u : Unicode) (jwt : Jwt) (agora : ℕ) (cfg : Config) (r : Request)
    (c : Claims) : Type 0 where
  pub token : Token
  pub lido : jwt.parse (token_do_request cfg r) (chave_hmac cfg.secret_key) ≡ some token
  pub valido : token.valid ≡ true
  pub hmac : jwt.is_hmac (token_do_request cfg r) ≡ true
  pub segredo : cfg.secret_key ≢ []
  pub de_acesso : eh_refresh_token token ≡ false
  pub do_token : c ≡ extrair_claims token.claims
  pub usuario : c.usuario_id ≢ []
  pub suporte : (c.suporte_empresa_id ≡ []) ⊎ IsSuporteValido u agora r c
  pub canal : recusa_do_canal c r ≡ ""

recusa_de_suporte-none :
    (u : Unicode) (agora : ℕ) (r : Request) (c : Claims)
    → recusa_de_suporte u agora r c ≡ none
    → (c.suporte_empresa_id ≡ []) ⊎ IsSuporteValido u agora r c
unfolding recusa_de_suporte
recusa_de_suporte-none u agora r c h = elim (Bool-cases (vazio c.suporte_empresa_id)) [
  | inl e ↦ inl ((vazio_iff c.suporte_empresa_id).0 e)
  | inr n ↦ inr (record {
    empresa = ground (arith, vazio_iff c.empresa_id);
    mesma = ground arith;
    sessao = ground (arith, vazio_iff c.sessao_suporte_id);
    escrita = ground arith;
  })
]

hmac_of_parse :
    (jwt : Jwt) (raw secret : Texto) (token : Token)
    → jwt.parse raw (chave_hmac secret) ≡ some token
    → jwt.is_hmac raw ≡ true
hmac_of_parse jwt raw secret token h = elim (Bool-cases (jwt.is_hmac raw)) [
  | inl e ↦ e
  | inr n ↦ absurd (ground (arith, jwt.key_refused raw (chave_hmac secret) (rw n)))
]

canal_of_recusa :
    (c : Claims) (r : Request)
    → (not (vazio c.canal) && not (str_eq (recusa_do_canal c r) "")) ≡ false
    → recusa_do_canal c r ≡ ""
unfolding recusa_do_canal
canal_of_recusa c r h = elim (Bool-cases (vazio c.canal)) [
  | inl e ↦ rw e refl
  | inr n ↦ ground (arith, eq_iff (recusa_do_canal c r) "")
]

recusa_of_canal :
    (c : Claims) (r : Request)
    → recusa_do_canal c r ≡ ""
    → (not (vazio c.canal) && not (str_eq (recusa_do_canal c r) "")) ≡ false
recusa_of_canal c r h = rw h (and_false (not (vazio c.canal)))
  where
    and_false : (b : Bool) → (b && false) ≡ false
    and_false true = refl
    and_false false = refl

suporte_passa :
    (u : Unicode) (agora : ℕ) (r : Request) (c : Claims)
    → (c.suporte_empresa_id ≡ []) ⊎ IsSuporteValido u agora r c
    → recusa_de_suporte u agora r c ≡ none
unfolding recusa_de_suporte
suporte_passa u agora r c (inl e) = rw e refl
suporte_passa u agora r c (inr v) =
    ground
      (arith, v.empresa, v.sessao, v.escrita, vazio_iff c.empresa_id, vazio_iff c.sessao_suporte_id)

module _ (u : Unicode) (jwt : Jwt) (agora : ℕ) (cfg : Config) (next : Handler) (r : Request) where
  com_identidade-cases :
      (c : Claims)
      → IsDenied (com_identidade u agora next r c)
        ⊎ ((com_identidade u agora next r c
              ≡ next (record r { contexto = com_claims r.contexto c }))
            × (c.usuario_id ≢ [])
            × ((c.suporte_empresa_id ≡ []) ⊎ IsSuporteValido u agora r c)
            × (recusa_do_canal c r ≡ ""))
  unfolding com_identidade
  com_identidade-cases c = elim (Bool-cases (vazio c.usuario_id)) [
    | inl e ↦ inl (rw e (omega arith, refl))
    | inr n ↦ elim (Option-cases (recusa_de_suporte u agora r c)) [
      | inr (m, e) ↦ inl (rw (n, e) (omega arith, refl))
      | inl e ↦ elim (Bool-cases (not (vazio c.canal) && not (str_eq (recusa_do_canal c r) ""))) [
        | inl x ↦ inl (rw (n, e, x) (omega arith, refl))
        | inr x ↦ inr (
          rw (n, e, x),
          ground (arith, vazio_iff c.usuario_id),
          recusa_de_suporte-none u agora r c e,
          canal_of_recusa c r x,
        )
      ]
    ]
  ]

  -- The reply is a refusal with an error status; or it is the handler's, for the request with the claims of a
  -- valid access token of an HMAC algorithm in its context, its user named, its support session, if any,
  -- valid (and reading, or within the window for writing), and its channel not refused.
  pub autenticacao-cases :
      IsDenied (autenticacao u jwt agora cfg next r)
      ⊎ ((c : Claims) × IsAutenticado u jwt agora cfg r c
          × (autenticacao u jwt agora cfg next r
              ≡ next (record r { contexto = com_claims r.contexto c })))
  unfolding autenticacao com_token
  autenticacao-cases = elim (Bool-cases (vazio raw)) [
    | inl e ↦ inl (rw e (omega arith, refl))
    | inr n ↦ elim (Bool-cases (vazio cfg.secret_key)) [
      | inl e ↦ inl (rw (n, e) (omega arith, refl))
      | inr k ↦ elim (Option-cases (jwt.parse raw (chave_hmac cfg.secret_key))) [
        | inl e ↦ inl (rw (n, k, e) (omega arith, refl))
        | inr (parsed, e) ↦ elim (Bool-cases (not parsed.valid || eh_refresh_token parsed)) [
          | inl x ↦ inl (rw (n, k, e, x) (omega arith, refl))
          | inr x ↦
              rw (n, k, e, x)
                (elim (com_identidade-cases (extrair_claims parsed.claims)) [
                  | inl d ↦ inl d
                  | inr (seguiu, usuario, suporte, canal) ↦ inr (
                    extrair_claims parsed.claims,
                    record {
                      token = parsed;
                      lido = e;
                      valido = ground arith;
                      hmac = hmac_of_parse jwt raw cfg.secret_key parsed e;
                      segredo = ground (arith, vazio_iff cfg.secret_key);
                      de_acesso = ground arith;
                      do_token = refl;
                      usuario = usuario;
                      suporte = suporte;
                      canal = canal;
                    },
                    seguiu,
                  )
                ])
        ]
      ]
    ]
  ]
    where
      raw : Texto
      raw = token_do_request cfg r

  -- Every request whose token is valid in that sense reaches the handler.
  pub autenticacao-passa :
      (c : Claims)
      → IsAutenticado u jwt agora cfg r c
      → token_do_request cfg r ≢ []
      → autenticacao u jwt agora cfg next r ≡ next (record r { contexto = com_claims r.contexto c })
  unfolding autenticacao com_token com_identidade
  autenticacao-passa c v t =
      let raw = token_do_request cfg r in
      let n : vazio raw ≡ false = ground (arith, vazio_iff raw) in
      let k : vazio cfg.secret_key ≡ false = ground (arith, v.segredo, vazio_iff cfg.secret_key) in
      let x : (not v.token.valid || eh_refresh_token v.token) ≡ false =
        ground (arith, v.valido, v.de_acesso) in
      let w : vazio c.usuario_id ≡ false = ground (arith, v.usuario, vazio_iff c.usuario_id) in
      rw
        (
          n,
          k,
          v.lido,
          x,
          ← v.do_token,
          w,
          suporte_passa u agora r c v.suporte,
          recusa_of_canal c r v.canal,
        )
        refl

-- ===== src/Seguranca/Csrf/Token.antt =====
-- seguranca/csrf.go: the token that the handler issues, and that the guard takes it back. `encode` is the
-- unpadded base64 of URLs, and `rand` the bytes that crypto/rand gives, if it does.
use deelp_pkg.Texto.{Texto, Unicode, codes, trim_space, is_space}
use deelp_pkg.Texto.Limpo.{trim_space-limpo}
use deelp_pkg.Http.{Request, Handler}
use deelp_pkg.Seguranca.Csrf.{CsrfConfig, csrf_guard}
use deelp_pkg.Seguranca.Csrf.Laws.{csrf_guard-decides}
use deelp_pkg.Prelude.{
  ℕ, String, [], ◌∷◌, true, false, none, some, inl, inr, Bool, List, Option, all, not, ◌≡◌, ◌≢◌,
  refl,
}

-- `gerarToken`.
unfoldable pub gerar_token : (List ℕ → Texto) → Option (List ℕ) → Texto
gerar_token encode (some buf) = encode buf
gerar_token encode none = encode (codes "fallback-token-deterministico")

-- The cookie, with `Path` and `SameSite` as the handler sets them, and the two fields of the body.
pub data SameSite : Type 0 where
  same_site_strict : SameSite

pub record Cookie : Type 0 where
  pub name : Texto
  pub value : Texto
  pub path : Texto
  pub http_only : Bool
  pub secure : Bool
  pub same_site : SameSite

pub record TokenEmitido : Type 0 where
  pub cookie : Cookie
  pub csrf_token : Texto
  pub header_name : String

-- `CSRFTokenHandler`; `producao_https` is the field of the configuration.
unfoldable pub csrf_token_handler : (List ℕ → Texto) → Bool → Option (List ℕ) → TokenEmitido
csrf_token_handler encode producao_https rand =
    let token = gerar_token encode rand in
    record {
      cookie = record {
        name = codes "deelp_csrf";
        value = token;
        path = codes "/";
        http_only = false;
        secure = producao_https;
        same_site = same_site_strict;
      };
      csrf_token = token;
      header_name = "X-CSRF-Token";
    }

-- The alphabet of the encoding has no spaces, and only nothing is written as nothing.
pub record IsAlfabeto (encode : List ℕ → Texto) : Type 0 where
  pub sem_espacos : (bs : List ℕ) → all (λ c. not (is_space c)) (encode bs) ≡ true
  pub nao_vazio : (b : ℕ) (bs : List ℕ) → encode (b ∷ bs) ≢ []

gerar_token-ne-nil :
    (encode : List ℕ → Texto)
    → IsAlfabeto encode
    → (o : Option (List ℕ)) → o ≢ some []
    → gerar_token encode o ≢ []
unfolding gerar_token
gerar_token-ne-nil encode a none n = a.nao_vazio _ _
gerar_token-ne-nil encode a (some []) n = absurd (n refl)
gerar_token-ne-nil encode a (some (b ∷ bs)) n = a.nao_vazio b bs

gerar_token-sem_espacos :
    (encode : List ℕ → Texto)
    → IsAlfabeto encode
    → (o : Option (List ℕ)) → all (λ c. not (is_space c)) (gerar_token encode o) ≡ true
unfolding gerar_token
gerar_token-sem_espacos encode a none = a.sem_espacos _
gerar_token-sem_espacos encode a (some bs) = a.sem_espacos bs

-- A request that brings back the cookie that the token's handler set, under its name, and the token of the body in
-- the header that the body names, passes the guard, with every configuration and whether or not random bytes, at least
-- one, were drawn.
pub csrf_guard-csrf_token_handler :
    (u : Unicode) (cfg : CsrfConfig) (encode : List ℕ → Texto) (https : Bool) (o : Option (List ℕ))
    (next : Handler) (r : Request)
    → IsAlfabeto encode
    → o ≢ some []
    → r.cookie ((csrf_token_handler encode https o).cookie.name)
      ≡ some (csrf_token_handler encode https o).cookie.value
    → r.header ((csrf_token_handler encode https o).header_name)
      ≡ (csrf_token_handler encode https o).csrf_token
    → csrf_guard u cfg next r ≡ next r
unfolding csrf_token_handler
csrf_guard-csrf_token_handler u cfg encode https o next r a d k h =
    let t : trim_space (r.header "X-CSRF-Token") ≡ gerar_token encode o =
      rw h (trim_space-limpo _ (gerar_token-sem_espacos encode a o)) in
    elim (csrf_guard-decides u cfg next r) [
      | inl (g, _) ↦ g
      | inr (_, n) ↦
          absurd (n (inr (inr (gerar_token encode o, k, gerar_token-ne-nil encode a o d, t))))
    ]

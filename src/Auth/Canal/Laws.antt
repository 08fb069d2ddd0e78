-- ===== src/Auth/Canal/Laws.antt =====
-- auth/canal.go: what the assistant's channel may call, and what its derived token holds.
use text.Mathlib.TextEquality.{eq_iff}
use deelp_pkg.Texto.{Texto, codes, eq_texto, has_suffix, trim_right_slash}
use deelp_pkg.Texto.Laws.{eq_texto→eq, vazio_iff}
use deelp_pkg.Http.{Request}
use deelp_pkg.Auth.Claims.{Claims}
use deelp_pkg.Auth.Leitura.{eh_requisicao_de_leitura, post_de_leitura}
use deelp_pkg.Auth.Token.{MapClaims, extrair_claims, texto_de}
use deelp_pkg.Auth.Canal.{
  canal_assistente, consultas_por_post_do_canal, consulta_por_post, canal_pode_chamar,
  recusa_do_canal, derivar_token_assistente, assinado, expiracao, derivadas,
  duracao_token_assistente, opcional,
}
use deelp_pkg.Prelude.{
  [], ◌∷◌, true, some, inl, inr, refl, Bool, all, ◌≡◌, ◌≢◌, List, arith, any, Bool-cases, false,
  pos, Option, ℕ, ◌/◌, ◌<◌, ◌≤◌, ◌+◌, ltb_ℤ, pos_part, ◌*◌,
}

-- A test that holds of every route of a list holds of a path that equals one of them.
test_of_any :
    (test : Texto → Bool) (rotas : List Texto) (p : Texto)
    → all test rotas ≡ true
    → any (λ rota. eq_texto p rota) rotas ≡ true
    → test p ≡ true
test_of_any test [] p h k = absurd (ground arith)
test_of_any test (rota ∷ rotas) p h k = elim (Bool-cases (eq_texto p rota)) [
  | inl e ↦ rw (eq_texto→eq p rota e) (ground arith)
  | inr n ↦ test_of_any test rotas p (ground arith) (ground arith)
]

rotas_sao_pesquisas :
    all (λ rota. has_suffix rota (codes "/pesquisar")) consultas_por_post_do_canal ≡ true
unfolding has_suffix
rotas_sao_pesquisas = refl

post_de_leitura_of_consulta : (p : Texto) → consulta_por_post p ≡ true → post_de_leitura p ≡ true
unfolding consulta_por_post post_de_leitura
post_de_leitura_of_consulta p h =
    rw
      (test_of_any (λ rota. has_suffix rota (codes "/pesquisar")) consultas_por_post_do_canal p
        rotas_sao_pesquisas h)
      refl

-- Every request that the channel may make only reads, by the package's own classification.
canal_pode_chamar_le :
    (r : Request) → canal_pode_chamar r ≡ true → eh_requisicao_de_leitura (some r) ≡ true
unfolding canal_pode_chamar eh_requisicao_de_leitura
canal_pode_chamar_le r h = ground (arith, post_de_leitura_of_consulta (trim_right_slash r.path))

-- A token with a channel that is not refused belongs to the assistant, comes from no support session,
-- and its request only reads.
recusa_do_canal_vazia :
    (c : Claims) (r : Request)
    → c.canal ≢ []
    → recusa_do_canal c r ≡ ""
    → (c.canal ≡ canal_assistente)
      × (c.suporte_empresa_id ≡ [])
      × (c.sessao_suporte_id ≡ [])
      × (eh_requisicao_de_leitura (some r) ≡ true)
unfolding recusa_do_canal
recusa_do_canal_vazia c r n h = ground (
  arith,
  canal_pode_chamar_le r,
  eq_texto→eq c.canal canal_assistente,
  vazio_iff c.canal,
  vazio_iff c.suporte_empresa_id,
  vazio_iff c.sessao_suporte_id,
  eq_iff "Canal de acesso desconhecido" "",
  eq_iff "Assistente de IA indisponível em sessão de suporte" "",
  eq_iff "O assistente de IA tem acesso somente leitura" "",
)

opcional_lem : (s : Texto) → texto_de (opcional s) ≡ s
opcional_lem [] = refl
opcional_lem (x ∷ s) = refl

-- Reading the claims of a derived token gives back the origin's identity, with the assistant's channel, the
-- expiry in seconds, and neither power over the platform nor a support session, whatever the origin had.
pub extrair_claims-derivadas :
    (c : Claims) (agora expira : ℕ) (jti : Texto)
    → extrair_claims (derivadas c agora expira jti) ≡ record c {
      is_platform_admin = false;
      plataforma_modulos = [];
      suporte_empresa_id = [];
      sessao_suporte_id = [];
      suporte_escrita_ate = pos 0;
      canal = canal_assistente;
      expira_em = pos (expira / 1000000000);
    }
unfolding extrair_claims derivadas eq_texto
extrair_claims-derivadas c agora expira jti =
    rw (opcional_lem c.colaboracao_id, opcional_lem c.departamento_id, opcional_lem c.cargo_id)

-- If `DerivarTokenAssistente` signs a token, it expires after now, at most five minutes from now, and not
-- after the origin if that has an expiry; the origin has no channel and no support session, and names a user
-- and a company; and what was signed is the derived claims.
pub derivar_token_assistente-expira :
    {A : Type 0} (assinar : Texto → MapClaims → Option A) (jti : Texto) (c : Claims)
    (secret : Texto) (agora expira : ℕ) (token : A)
    → derivar_token_assistente assinar jti c secret agora ≡ assinado token expira
    → (agora < expira)
      × (expira ≤ agora + duracao_token_assistente)
      × (ltb_ℤ (pos 0) c.expira_em ≡ true → expira ≤ pos_part c.expira_em * 1000000000)
      × (c.canal ≡ [])
      × (c.suporte_empresa_id ≡ [])
      × (c.sessao_suporte_id ≡ [])
      × (c.usuario_id ≢ [])
      × (c.empresa_id ≢ [])
      × (assinar secret (derivadas c agora expira jti) ≡ some token)
unfolding derivar_token_assistente expiracao
derivar_token_assistente-expira assinar jti c secret agora expira token h = ground (
  arith,
  vazio_iff c.canal,
  vazio_iff c.suporte_empresa_id,
  vazio_iff c.sessao_suporte_id,
  vazio_iff c.usuario_id,
  vazio_iff c.empresa_id,
)

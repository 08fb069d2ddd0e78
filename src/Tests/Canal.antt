-- ===== src/Tests/Canal.antt =====
-- The assistant's channel at concrete claims and requests.
use deelp_pkg.Tests.{claims_teste}
use deelp_pkg.Auth.Canal.{
  canal_assistente, derivadas, derivar_token_assistente, expiracao, duracao_token_assistente,
}
use deelp_pkg.Auth.Canal.Laws.{extrair_claims-derivadas, derivar_token_assistente-expira}
use deelp_pkg.Texto.{trim_space, trim_left_by, trim_right_by, is_space, Texto, codes}
use deelp_pkg.Prelude.{
  [], true, false, some, pos, refl, ◌<◌, ◌≡◌, ◌≤◌, Option, ◌+◌, ◌/◌, ltb_ℤ, ℕ, pos_part, ◌*◌, ◌≢◌,
}
use deelp_pkg.Auth.Token.{extrair_claims, MapClaims}

extrair_claims-derivadas_example :
    extrair_claims (derivadas claims_teste 5 9000000000 (codes "j")) ≡ record claims_teste {
      is_platform_admin = false;
      plataforma_modulos = [];
      suporte_empresa_id = [];
      sessao_suporte_id = [];
      suporte_escrita_ate = pos 0;
      canal = canal_assistente;
      expira_em = pos (9000000000 / 1000000000);
    }
extrair_claims-derivadas_example = extrair_claims-derivadas claims_teste 5 9000000000 (codes "j")

abbrev assinar_teste : Texto → MapClaims → Option ℕ
assinar_teste secret claims = some 7

derivar_token_assistente-expira_example :
    (5 < 300000000005)
    × (300000000005 ≤ 5 + duracao_token_assistente)
    × (ltb_ℤ (pos 0) claims_teste.expira_em ≡ true
        → 300000000005 ≤ pos_part claims_teste.expira_em * 1000000000)
    × (claims_teste.canal ≡ [])
    × (claims_teste.suporte_empresa_id ≡ [])
    × (claims_teste.sessao_suporte_id ≡ [])
    × (claims_teste.usuario_id ≢ [])
    × (claims_teste.empresa_id ≢ [])
    × (assinar_teste (codes "s") (derivadas claims_teste 5 300000000005 (codes "j")) ≡ some 7)
unfolding derivar_token_assistente expiracao trim_space trim_left_by trim_right_by is_space
derivar_token_assistente-expira_example =
    derivar_token_assistente-expira assinar_teste (codes "j") claims_teste (codes "s") 5
      300000000005 7 refl

-- ===== src/Tests/Acesso.antt =====
-- The middlewares at concrete requests.
use deelp_pkg.Tests.{
  so_ascii, cfg_teste, leitura_teste, leitura_com_claims, jwt_teste, map_claims_teste,
}
use deelp_pkg.Auth.Tenant.{tenant_guard, empresa_do_request}
use deelp_pkg.Auth.Tenant.Laws.{IsDaEmpresa, isolamento, tenant_guard-cases}
use deelp_pkg.Auth.Middleware.{
  autenticacao, token_do_request, com_token, com_identidade, recusa_de_suporte,
}
use deelp_pkg.Auth.Middleware.Laws.{IsDenied, IsAutenticado, autenticacao-cases}
use deelp_pkg.Auth.Permissao.{
  resposta, ModuloAcao, requer_qualquer_permissao_remota, PermissaoCheckerRemoto, PermissaoChecker,
}
use deelp_pkg.Auth.Permissao.Laws.{
  Decides, ComEmpresa, Libera, consulta_do_par, requer_qualquer_permissao_remota-decides,
}
use deelp_pkg.Auth.Canal.{recusa_do_canal}
use deelp_pkg.Assinatura.Guarda.{contrato, ConfigGuarda, requer_contrato_ativo}
use deelp_pkg.Assinatura.Guarda.Laws.{Barra, IsBloqueado, requer_contrato_ativo-Barra}
use deelp_pkg.Prelude.{[], ◌∷◌, true, false, some, refl, ◌≡◌, ◌⊎◌, arith, ◌≢◌, Option}
use deelp_pkg.Http.{Request, served}
use deelp_pkg.Texto.{
  rune_fold, codes, trim_space, eq_texto, trim_left_by, trim_right_by, is_space, trim_prefix,
  has_prefix, equal_fold, rune_fold,
}
use deelp_pkg.Auth.Claims.{claims_do_contexto, com_claims, Claims}
use deelp_pkg.Auth.Token.{extrair_claims, eh_refresh_token}

-- The request of the test with the claims of its token.
abbrev servido_teste : Request
servido_teste = record leitura_teste {
  contexto = com_claims leitura_teste.contexto (extrair_claims map_claims_teste);
}

isolamento_example :
    (c : Claims) × IsAutenticado so_ascii jwt_teste 0 cfg_teste leitura_teste c
    × (servido_teste ≡ record leitura_teste { contexto = com_claims leitura_teste.contexto c })
    × (c.empresa_id ≢ [])
    × (equal_fold so_ascii c.empresa_id (empresa_do_request leitura_teste) ≡ true)
unfolding autenticacao jwt_teste token_do_request trim_space trim_left_by trim_right_by is_space
    trim_prefix has_prefix com_token eh_refresh_token com_identidade recusa_de_suporte
    recusa_do_canal extrair_claims tenant_guard empresa_do_request equal_fold rune_fold
    claims_do_contexto com_claims eq_texto
isolamento_example =
    isolamento so_ascii jwt_teste 0 cfg_teste leitura_teste servido_teste refl (λ e. ground arith)

tenant_guard-cases_example :
    ((tenant_guard so_ascii served leitura_com_claims ≡ served leitura_com_claims)
      × ((empresa_do_request leitura_com_claims ≡ [])
          ⊎ IsDaEmpresa so_ascii
              (claims_do_contexto leitura_com_claims.contexto)
              (empresa_do_request leitura_com_claims)))
    ⊎ (IsDenied (tenant_guard so_ascii served leitura_com_claims)
        × (empresa_do_request leitura_com_claims ≢ [])
        × (¬ IsDaEmpresa so_ascii
            (claims_do_contexto leitura_com_claims.contexto)
            (empresa_do_request leitura_com_claims)))
tenant_guard-cases_example = tenant_guard-cases so_ascii served leitura_com_claims

autenticacao-cases_example :
    IsDenied (autenticacao so_ascii jwt_teste 0 cfg_teste served leitura_teste)
    ⊎ ((c : Claims) × IsAutenticado so_ascii jwt_teste 0 cfg_teste leitura_teste c
        × (autenticacao so_ascii jwt_teste 0 cfg_teste served leitura_teste
            ≡ served (record leitura_teste { contexto = com_claims leitura_teste.contexto c })))
autenticacao-cases_example = autenticacao-cases so_ascii jwt_teste 0 cfg_teste served leitura_teste

-- A checker that says yes.
abbrev sempre : PermissaoChecker
sempre ctx a b c d = resposta true

abbrev par_teste : ModuloAcao
par_teste = record { modulo = codes "m"; acao = codes "a" }

requer_qualquer_permissao_remota-decides_example :
    Decides
      (requer_qualquer_permissao_remota cfg_teste
        (some sempre)
        (par_teste ∷ [])
        served
        leitura_com_claims)
      (served leitura_com_claims)
      (ComEmpresa (claims_do_contexto leitura_com_claims.contexto) (λ c.
        (f : PermissaoCheckerRemoto) × (◌≡◌ {A = Option PermissaoCheckerRemoto}
          (some sempre)
          (some f))
        × Libera (consulta_do_par cfg_teste leitura_com_claims f c) c (par_teste ∷ [])))
requer_qualquer_permissao_remota-decides_example =
    requer_qualquer_permissao_remota-decides cfg_teste (some sempre) (par_teste ∷ []) served
      leitura_com_claims

abbrev cfg_guarda_teste : ConfigGuarda
cfg_guarda_teste = record { cookie_name = []; rotas_liberadas = [] }

requer_contrato_ativo-Barra_example :
    Barra
      (requer_contrato_ativo cfg_guarda_teste
        (some (λ b e. contrato false []))
        served
        leitura_com_claims)
      (served leitura_com_claims)
      (IsBloqueado cfg_guarda_teste (some (λ b e. contrato false [])) leitura_com_claims)
requer_contrato_ativo-Barra_example =
    requer_contrato_ativo-Barra cfg_guarda_teste (some (λ b e. contrato false [])) served
      leitura_com_claims

-- ===== src/Observabilidade/Contagem.antt =====
-- observabilidade/negocio.go: the counter of the events of the business, as the additions that it is given.
use deelp_pkg.Texto.{Texto, codes}
use deelp_pkg.Observabilidade.Exportador.{KeyValue, texto}
use deelp_pkg.Prelude.{[], ◌∷◌, List, ◌++◌, map, ℤ, pos, leb_ℤ, if◌then◌else◌}

-- An addition to `eventosNegocio`.
pub record Adicao : Type 0 where
  pub n : ℤ
  pub atributos : List KeyValue

abbrev rotulos : Texto → Texto → Texto → List KeyValue
rotulos fluxo evento resultado =
    record { key = codes "fluxo"; value = texto fluxo }
    ∷ record { key = codes "evento"; value = texto evento }
    ∷ record { key = codes "resultado"; value = texto resultado }
    ∷ []

-- `ContarEvento`.
unfoldable pub contar_evento : Texto → Texto → Texto → List KeyValue → List Adicao
contar_evento fluxo evento resultado extras =
    record { n = pos 1; atributos = rotulos fluxo evento resultado ++ extras } ∷ []

-- `ContarEventoN`.
unfoldable pub contar_evento_n : Texto → Texto → Texto → ℤ → List KeyValue → List Adicao
contar_evento_n fluxo evento resultado n extras =
    if leb_ℤ n (pos 0)
    then []
    else record { n = n; atributos = rotulos fluxo evento resultado ++ extras } ∷ []

-- `PreRegistrarEvento`.
unfoldable pub pre_registrar_evento : Texto → Texto → List Texto → List Adicao
pre_registrar_evento fluxo evento resultados =
    map (λ r. record { n = pos 0; atributos = rotulos fluxo evento r }) resultados

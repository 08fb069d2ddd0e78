-- ===== src/Tenantdados/S3.antt =====
-- tenantdados/core/s3.go: the files of a tenant under a prefix of the bucket, and
-- tenantdados/core/fonte_func.go: a source from functions. `Armazenamento` is the client of the bucket.
use deelp_pkg.Texto.{Texto, codes, vazio, has_suffix, trim_prefix}
use deelp_pkg.Tenantdados.{Arquivo, Contagem, Fonte}
use deelp_pkg.Prelude.{
  [], ◌∷◌, true, false, none, some, Bool, List, Option, if◌then◌else◌, ℤ, length, not, ℕ, ◌++◌,
}

pub record Armazenamento (S : Type 0) : Type 0 where
  pub listar_prefixo : S → Texto → Option (List Texto)
  pub download : S → Texto → Option (List ℕ)
  pub excluir : S → Texto → S × Bool

-- `PrefixoS3`, with the prefix of the company.
pub record PrefixoS3 : Type 0 where
  pub nome_fonte : Texto
  pub prefixo : Texto
  pub pasta_exportada : Texto
  pub fase_expurgo : ℤ
  pub retida : Bool
  pub motivo_retencao : Texto

-- The prefix in `chaves`.
unfoldable pub prefixo_com_barra : Texto → Texto
prefixo_com_barra prefixo =
    if not (has_suffix prefixo (codes "/")) then prefixo ++ codes "/" else prefixo

module _ {S : Type 0} (k : Armazenamento S) where
  -- `chaves`.
  abbrev pub chaves : PrefixoS3 → S → Option (List Texto)
  chaves p s = k.listar_prefixo s (prefixo_com_barra p.prefixo)

  -- The loop of `Exportar`.
  unfoldable pub baixar : PrefixoS3 → S → List Texto → Option (List Arquivo)
  baixar p s [] = some []
  baixar p s (chave ∷ resto) =
      let depois = baixar p s resto in
      elim (k.download s chave) [
        | none ↦ none
        | some conteudo ↦ elim depois [
          | none ↦ none
          | some arquivos ↦ some (
              record {
                nome =
                    p.pasta_exportada
                    ++ codes "/"
                    ++ trim_prefix chave (prefixo_com_barra p.prefixo);
                conteudo = conteudo;
              }
              ∷ arquivos)
        ]
      ]

  -- `Exportar`.
  unfoldable pub exportar_s3 : PrefixoS3 → S → Option (List Arquivo)
  exportar_s3 p s =
      if vazio p.pasta_exportada
      then some []
      else elim (chaves p s) [ none ↦ none | some cs ↦ baixar p s cs ]

  -- `Contar`.
  unfoldable pub contar_s3 : PrefixoS3 → S → Option Contagem
  contar_s3 p s = elim (chaves p s) [
    | none ↦ none
    | some cs ↦ some (record {
      fonte = p.nome_fonte;
      quantidade = length cs;
      retido = p.retida;
      motivo = p.motivo_retencao;
    })
  ]

  -- The loop of `Apagar`: the store, and whether every key was deleted.
  abbrev pub conforme_exclusao : (S → S × Bool) → S × Bool → S × Bool
  conforme_exclusao adiante (s, false) = (s, false)
  conforme_exclusao adiante (s, true) = adiante s

  unfoldable pub excluir_todas : List Texto → S → S × Bool
  excluir_todas [] s = (s, true)
  excluir_todas (chave ∷ resto) s = conforme_exclusao (excluir_todas resto) (k.excluir s chave)

  -- `Apagar`; the count that goes with an error, which nothing reads, is left out.
  unfoldable pub apagar_s3 : PrefixoS3 → S → S × Option Contagem
  apagar_s3 p s = if p.retida then (s, contar_s3 p s) else elim (chaves p s) [
    | none ↦ (s, none)
    | some cs ↦
        let (s', apagou) = excluir_todas cs s in
        (
          s',
          if apagou
              then some (record {
                fonte = p.nome_fonte;
                quantidade = length cs;
                retido = false;
                motivo = [];
              })
              else none,
        )
  ]

  -- `PrefixoS3` as a source.
  unfoldable pub fonte_s3 : PrefixoS3 → Fonte S
  fonte_s3 p = record {
    nome = p.nome_fonte;
    fase = p.fase_expurgo;
    exportar = exportar_s3 p;
    contar = contar_s3 p;
    apagar = apagar_s3 p;
  }

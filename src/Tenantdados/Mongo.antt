-- ===== src/Tenantdados/Mongo.antt =====
-- tenantdados/mongo/colecao.go and the values of tenantdados/mongo/valor.go: a collection of a tenant.
-- `BancoMongo` is the database, under the filter of one company.
use deelp_pkg.Texto.{Texto, codes, vazio, eq_texto, byte_len}
use deelp_pkg.Ordem.{ordenar}
use deelp_pkg.Tenantdados.{Arquivo, Contagem, Fonte, nome_arquivo}
use deelp_pkg.Tenantdados.Csv.{Valor, montar_csv, texto, bytes}
use deelp_pkg.Prelude.{
  [], ◌∷◌, false, none, some, pos, ◌||◌, ◌==◌, List, Option, if◌then◌else◌, ℤ, Bool, any, map, not,
  take, ℕ, length, ◌++◌, ◌-◌, drop,
}

-- A value of a document, by its type: a composite one with what `MarshalExtJSON` makes of `{"v": value}`,
-- an instant with its text in UTC, an identifier in hexadecimal, a binary with its subtype, a decimal with
-- its text, and any other value.
pub data ValorMongo : Type 0 where
  composto : Option Texto → ValorMongo
  data_hora : Texto → ValorMongo
  object_id : Texto → ValorMongo
  binario : ℕ → Texto → ValorMongo
  decimal : Texto → ValorMongo
  simples : Valor → ValorMongo

abbrev pub Documento : Type 0
Documento = List (Texto × ValorMongo)

-- The client: the documents of a cursor, unless it fails.
pub record BancoMongo (S : Type 0) : Type 0 where
  pub buscar : S → Texto → Option (List Documento)
  pub contar_documentos : S → Texto → Option ℕ
  pub excluir_documentos : S → Texto → S × Option ℕ

-- `ColecaoMongo`.
pub record ColecaoMongo : Type 0 where
  pub colecao : Texto
  pub fase_expurgo : ℤ
  pub retida : Bool
  pub motivo_retencao : Texto
  pub rotulo : Texto
  pub nao_exportar : Bool
  pub somente_exportar : Bool

-- `Nome` and `Fase`.
unfoldable pub nome_mongo : ColecaoMongo → Texto
nome_mongo c =
    if not (vazio c.rotulo)
    then codes "mongo." ++ c.colecao ++ codes "." ++ c.rotulo
    else codes "mongo." ++ c.colecao

unfoldable pub fase_mongo : ColecaoMongo → ℤ
fase_mongo c = if c.somente_exportar then pos 0 else c.fase_expurgo

-- The keys of the documents, each once.
abbrev com_chave : Texto → List Texto → List Texto
com_chave k ks = if any (λ j. eq_texto j k) ks then ks else k ∷ ks

abbrev com_chaves : Documento → List Texto → List Texto
com_chaves [] ks = ks
com_chaves ((k, v) ∷ d) ks = com_chave k (com_chaves d ks)

unfoldable pub chaves_mongo : List Documento → List Texto
chaves_mongo [] = []
chaves_mongo (d ∷ ds) = com_chaves d (chaves_mongo ds)

-- `doc[k]`, nil on a missing key.
unfoldable pub campo_mongo : Texto → Documento → ValorMongo
campo_mongo k [] = simples Valor.nulo
campo_mongo k ((j, v) ∷ d) = let resto = campo_mongo k d in if eq_texto j k then v else resto

module _ (uuid_de_bytes : Texto → Option Texto) where
  -- `valorMongoSimples`, and the two cases of `celulaMongo`. The text of a composite value is cut at
  -- its first five and its last character.
  abbrev ou_bytes : Texto → Option Texto → Valor
  ou_bytes dados none = bytes dados
  ou_bytes dados (some id) = texto id

  unfoldable pub celula_mongo : ValorMongo → Valor
  celula_mongo (composto none) = texto []
  celula_mongo (composto (some json)) = texto (take (length json - 6) (drop 5 json))
  celula_mongo (data_hora t) = texto t
  celula_mongo (object_id t) = texto t
  celula_mongo (binario subtipo dados) =
      if subtipo == 4 || subtipo == 3 || byte_len dados == 16
      then ou_bytes dados (uuid_de_bytes dados)
      else bytes dados
  celula_mongo (decimal t) = texto t
  celula_mongo (simples v) = v

  -- The loops over the documents and the columns.
  unfoldable pub linhas_mongo : List Texto → List Documento → List (List Valor)
  linhas_mongo colunas ds = map (λ d. map (λ k. celula_mongo (campo_mongo k d)) colunas) ds

  abbrev em_csv_mongo : ColecaoMongo → Option (List ℕ) → Option (List Arquivo)
  em_csv_mongo c none = none
  em_csv_mongo c (some conteudo) =
      some (record { nome = nome_arquivo (nome_mongo c); conteudo = conteudo } ∷ [])

  abbrev com_documentos : ColecaoMongo → Option (List Documento) → Option (List Arquivo)
  com_documentos c none = none
  com_documentos c (some ds) =
      let colunas = ordenar (λ k. k) (chaves_mongo ds) in
      em_csv_mongo c (montar_csv colunas (linhas_mongo colunas ds))

  module _ {S : Type 0} (b : BancoMongo S) where
    -- `Exportar`.
    unfoldable pub exportar_mongo : ColecaoMongo → S → Option (List Arquivo)
    exportar_mongo c s = if c.nao_exportar then some [] else com_documentos c (b.buscar s c.colecao)

    -- `Contar`.
    unfoldable pub contar_mongo : ColecaoMongo → S → Option Contagem
    contar_mongo c s = elim (b.contar_documentos s c.colecao) [
      | none ↦ none
      | some n ↦ some (record {
        fonte = nome_mongo c;
        quantidade = n;
        retido = c.retida;
        motivo = c.motivo_retencao;
      })
    ]

    abbrev com_excluidos : ColecaoMongo → S × Option ℕ → S × Option Contagem
    com_excluidos c (s, none) = (s, none)
    com_excluidos c (s, some n) =
        (s, some (record { fonte = nome_mongo c; quantidade = n; retido = false; motivo = [] }))

    -- `Apagar`.
    unfoldable pub apagar_mongo : ColecaoMongo → S → S × Option Contagem
    apagar_mongo c s =
        if c.retida
        then (s, contar_mongo c s)
        else com_excluidos c (b.excluir_documentos s c.colecao)

    unfoldable pub fonte_mongo : ColecaoMongo → Fonte S
    fonte_mongo c = record {
      nome = nome_mongo c;
      fase = fase_mongo c;
      exportar = exportar_mongo c;
      contar = contar_mongo c;
      apagar = apagar_mongo c;
    }

-- ===== src/Tenantdados/Postgres.antt =====
-- tenantdados/postgres/tabela.go: a table of a tenant. `BancoPg` is the database, for one company.
use deelp_pkg.Texto.{Texto, codes, vazio, eq_texto}
use deelp_pkg.Tenantdados.{Arquivo, Contagem, Fonte, nome_arquivo}
use deelp_pkg.Tenantdados.Csv.{Valor, montar_csv}
use deelp_pkg.Prelude.{
  [], ◌∷◌, false, none, some, ◌&&◌, Bool, Option, if◌then◌else◌, ℕ, ℤ, ◌++◌, List, not,
}

-- An error of the driver, with its code, or another.
pub data ErroPg : Type 0 where
  codigo_pg : Texto → ErroPg
  outro_erro : ErroPg

pub data RespostaPg (A : Type 0) : Type 0 where
  erro_pg : ErroPg → RespostaPg A
  dado : A → RespostaPg A

-- The client: a query gives the names of the columns and the rows, unless reading them fails; a command
-- gives the number of rows that it affected.
pub record BancoPg (S : Type 0) : Type 0 where
  pub consultar : S → Texto → RespostaPg (Option (List Texto × List (List Valor)))
  pub contar_linhas : S → Texto → RespostaPg ℕ
  pub executar : S → Texto → S × RespostaPg ℕ

-- `TabelaPG`.
pub record TabelaPg : Type 0 where
  pub tabela : Texto
  pub filtro : Texto
  pub fase_expurgo : ℤ
  pub retida : Bool
  pub motivo_retencao : Texto
  pub anonimizar : Texto
  pub colunas : Texto
  pub nao_exportar : Bool
  pub opcional : Bool

-- `ausente`.
unfoldable pub ausente : TabelaPg → ErroPg → Bool
ausente t (codigo_pg c) = t.opcional && eq_texto c (codes "42P01")
ausente t outro_erro = false

abbrev colunas_ou_todas : TabelaPg → Texto
colunas_ou_todas t = if vazio t.colunas then codes "*" else t.colunas

unfoldable pub selecao : TabelaPg → Texto
selecao t =
    codes "SELECT "
    ++ colunas_ou_todas t
    ++ codes " FROM "
    ++ t.tabela
    ++ codes " WHERE "
    ++ t.filtro

unfoldable pub contagem_sql : TabelaPg → Texto
contagem_sql t = codes "SELECT count(*) FROM " ++ t.tabela ++ codes " WHERE " ++ t.filtro

-- The command of `Apagar`.
unfoldable pub comando_de_expurgo : TabelaPg → Texto
comando_de_expurgo t =
    if not (vazio t.anonimizar)
    then codes "UPDATE " ++ t.tabela ++ codes " SET " ++ t.anonimizar ++ codes " WHERE " ++ t.filtro
    else codes "DELETE FROM " ++ t.tabela ++ codes " WHERE " ++ t.filtro

abbrev em_csv : TabelaPg → Option (List ℕ) → Option (List Arquivo)
em_csv t none = none
em_csv t (some conteudo) = some (record { nome = nome_arquivo t.tabela; conteudo = conteudo } ∷ [])

abbrev com_linhas :
    TabelaPg → RespostaPg (Option (List Texto × List (List Valor))) → Option (List Arquivo)
com_linhas t (erro_pg e) = if ausente t e then some [] else none
com_linhas t (dado none) = none
com_linhas t (dado (some (nomes, linhas))) = em_csv t (montar_csv nomes linhas)

abbrev contagem_pg : TabelaPg → ℕ → Contagem
contagem_pg t n = record {
  fonte = t.tabela;
  quantidade = n;
  retido = t.retida;
  motivo = t.motivo_retencao;
}

abbrev com_contagem : TabelaPg → RespostaPg ℕ → Option Contagem
com_contagem t (erro_pg e) = if ausente t e then some (contagem_pg t 0) else none
com_contagem t (dado n) = some (contagem_pg t n)

abbrev apagada : TabelaPg → ℕ → Contagem
apagada t n = record { fonte = t.tabela; quantidade = n; retido = false; motivo = [] }

abbrev com_apagadas : {S : Type 0} → TabelaPg → S × RespostaPg ℕ → S × Option Contagem
com_apagadas t (s, erro_pg e) = (s, if ausente t e then some (apagada t 0) else none)
com_apagadas t (s, dado n) = (s, some (apagada t n))

module _ {S : Type 0} (b : BancoPg S) where
  -- `Exportar`; a panic of `MontarCSV` counts as an error.
  unfoldable pub exportar_pg : TabelaPg → S → Option (List Arquivo)
  exportar_pg t s = if t.nao_exportar then some [] else com_linhas t (b.consultar s (selecao t))

  -- `Contar`.
  unfoldable pub contar_pg : TabelaPg → S → Option Contagem
  contar_pg t s = com_contagem t (b.contar_linhas s (contagem_sql t))

  -- `Apagar`.
  unfoldable pub apagar_pg : TabelaPg → S → S × Option Contagem
  apagar_pg t s =
      if t.retida then (s, contar_pg t s) else com_apagadas t (b.executar s (comando_de_expurgo t))

  unfoldable pub fonte_pg : TabelaPg → Fonte S
  fonte_pg t = record {
    nome = t.tabela;
    fase = t.fase_expurgo;
    exportar = exportar_pg t;
    contar = contar_pg t;
    apagar = apagar_pg t;
  }

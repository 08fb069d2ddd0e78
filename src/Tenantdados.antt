-- ===== src/Tenantdados.antt =====
-- tenantdados/core/tenantdados.go: the export and the purge of a tenant's data. The sources act on a
-- store `S`, which is the databases and the bucket; contexts and the texts of wrapped errors are left out.
pub mod Laws
pub mod S3
pub mod Csv
pub mod Parada
pub mod Retencao
pub mod Transporte
pub mod Cliente
pub mod Exportacao
pub mod Postgres
pub mod Mongo
use deelp_pkg.Texto.{Texto, codes}
use deelp_pkg.Prelude.{
  [], ◌∷◌, none, some, pos, ◌&&◌, ◌==◌, Bool, List, Option, if◌then◌else◌, ℕ, ℤ, ◌++◌, leb_ℤ, not,
}

-- `Arquivo`, with the content as bytes.
pub record Arquivo : Type 0 where
  pub nome : Texto
  pub conteudo : List ℕ

-- `Contagem`.
pub record Contagem : Type 0 where
  pub fonte : Texto
  pub quantidade : ℕ
  pub retido : Bool
  pub motivo : Texto

-- `RelatorioExpurgo`.
pub record RelatorioExpurgo : Type 0 where
  pub servico : Texto
  pub fase : ℤ
  pub simulado : Bool
  pub itens : List Contagem

-- A source, for one company; `none` is an error. `exportar` and `contar` are taken to leave the
-- store as it is, as those of the package do; Go's interface does not force it.
pub record Fonte (S : Type 0) : Type 0 where
  pub nome : Texto
  pub fase : ℤ
  pub exportar : S → Option (List Arquivo)
  pub contar : S → Option Contagem
  pub apagar : S → S × Option Contagem

pub record Servico (S : Type 0) : Type 0 where
  pub nome : Texto
  pub fontes : List (Fonte S)

abbrev pub fase_movimento : ℤ
fase_movimento = pos 1

abbrev pub fase_cadastro : ℤ
fase_cadastro = pos 2

abbrev pub eq_ℤ : ℤ → ℤ → Bool
eq_ℤ a b = leb_ℤ a b && leb_ℤ b a

-- How a purge ends: refused, stopped at the error of a source, or complete.
pub data Expurgo : Type 0 where
  fase_invalida : Expurgo
  interrompido : RelatorioExpurgo → Texto → Expurgo
  completo : RelatorioExpurgo → Expurgo

abbrev pub com_item : RelatorioExpurgo → Contagem → RelatorioExpurgo
com_item r c = record r { itens = r.itens ++ c ∷ [] }

module _ {S : Type 0} where
  -- One source in the loop of `Expurgar`.
  abbrev pub contar_ou_apagar : Bool → Fonte S → S → S × Option Contagem
  contar_ou_apagar simular f s = if simular then (s, f.contar s) else f.apagar s

  abbrev pub seguir :
      (S → RelatorioExpurgo → S × Expurgo)
      → RelatorioExpurgo
      → Texto
      → S × Option Contagem
      → S × Expurgo
  seguir resto r nome (s, none) = (s, interrompido r nome)
  seguir resto r nome (s, some c) = resto s (com_item r c)

  -- The loop of `Expurgar`.
  unfoldable pub expurgar_fontes : ℤ → Bool → List (Fonte S) → S → RelatorioExpurgo → S × Expurgo
  expurgar_fontes fase simular [] s r = (s, completo r)
  expurgar_fontes fase simular (f ∷ fs) s r =
      let adiante = expurgar_fontes fase simular fs in
      if not (eq_ℤ f.fase fase)
      then adiante s r
      else seguir adiante r f.nome (contar_ou_apagar simular f s)

  -- `Expurgar`.
  unfoldable pub expurgar : Servico S → ℤ → Bool → S → S × Expurgo
  expurgar servico fase simular s =
      if not (eq_ℤ fase fase_movimento) && not (eq_ℤ fase fase_cadastro)
      then (s, fase_invalida)
      else expurgar_fontes fase simular servico.fontes s
          (record { servico = servico.nome; fase = fase; simulado = simular; itens = [] })

-- `NomeArquivo`.
abbrev pub trocar_ponto : Texto → Texto
trocar_ponto [] = []
trocar_ponto (c ∷ s) =
    let resto = trocar_ponto s in if c == 46 then codes "__" ++ resto else c ∷ resto

unfoldable pub nome_arquivo : Texto → Texto
nome_arquivo fonte = trocar_ponto fonte ++ codes ".csv"

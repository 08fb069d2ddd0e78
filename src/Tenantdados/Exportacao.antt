-- ===== src/Tenantdados/Exportacao.antt =====
-- tenantdados/core: `Exportar` of a service, and tenantdados/core/fonte_func.go, a source of functions.
pub mod Laws
use deelp_pkg.Texto.{Texto}
use deelp_pkg.Ordem.{ordenar}
use deelp_pkg.Tenantdados.{Arquivo, Contagem, Fonte, Servico}
use deelp_pkg.Prelude.{[], ◌∷◌, false, none, some, List, Option, ℤ, ◌++◌}

abbrev pub com_lotes : List Arquivo → Option (List Arquivo) → Option (List Arquivo)
com_lotes lote none = none
com_lotes lote (some arquivos) = some (lote ++ arquivos)

-- `FonteFunc`, with the functions that are not nil.
pub record FonteFunc (S : Type 0) : Type 0 where
  pub nome_fonte : Texto
  pub fase_expurgo : ℤ
  pub exportar_func : Option (S → Option (List Arquivo))
  pub contar_func : Option (S → Option Contagem)
  pub apagar_func : Option (S → S × Option Contagem)

abbrev contagem_vazia : Texto → Contagem
contagem_vazia nome = record { fonte = nome; quantidade = 0; retido = false; motivo = [] }

module _ {S : Type 0} where
  -- The loop of `Exportar`, which the first error ends.
  unfoldable pub exportar_fontes : List (Fonte S) → S → Option (List Arquivo)
  exportar_fontes [] s = some []
  exportar_fontes (f ∷ fs) s = elim (f.exportar s) [
    | none ↦ none
    | some lote ↦ com_lotes lote (exportar_fontes fs s)
  ]

  -- `Exportar`.
  unfoldable pub exportar : Servico S → S → Option (List Arquivo)
  exportar servico s = elim (exportar_fontes servico.fontes s) [
    | none ↦ none
    | some arquivos ↦ some (ordenar (λ a. a.nome) arquivos)
  ]

  -- `FonteFunc` as a source.
  unfoldable pub fonte_func : FonteFunc S → Fonte S
  fonte_func f = record {
    nome = f.nome_fonte;
    fase = f.fase_expurgo;
    exportar = λ s. elim f.exportar_func [ none ↦ some [] | some g ↦ g s ];
    contar = λ s. elim f.contar_func [ none ↦ some (contagem_vazia f.nome_fonte) | some g ↦ g s ];
    apagar =
        λ s. elim f.apagar_func [ none ↦ (s, some (contagem_vazia f.nome_fonte)) | some g ↦ g s ];
  }

-- ===== src/Arquitetura/Comando.antt =====
-- cmd/deelp-arquitetura/main.go: the baseline, and the command with its exit code.
use deelp_pkg.Texto.{Texto, codes, vazio, eq_texto, has_prefix, trim_space, split}
use deelp_pkg.Ordem.{ordenar}
use deelp_pkg.Arquitetura.{Servico, Violacao, escrita, verificar}
use deelp_pkg.Prelude.{
  [], ◌∷◌, true, false, none, some, ◌&&◌, ◌||◌, Bool, List, Option, ℕ, any, keep, map, not,
  if◌then◌else◌, length, ◌++◌,
}

-- What reading the baseline gives.
pub data Leitura : Type 0 where
  inexistente ilegivel : Leitura
  lido : Texto → Leitura

-- The keys of a map to true, as a list without repetition.
abbrev pub contida : Texto → List Texto → Bool
contida t ts = any (λ x. eq_texto x t) ts

abbrev pub incluir : Texto → List Texto → List Texto
incluir t ts = if contida t ts then ts else t ∷ ts

unfoldable pub linhas_aceitas : List Texto → List Texto
linhas_aceitas [] = []
linhas_aceitas (texto ∷ ls) =
    let resto = linhas_aceitas ls in
    let linha = trim_space texto in
    if vazio linha || has_prefix linha (codes "#") then resto else incluir linha resto

-- `lerBaseline`.
unfoldable pub ler_baseline : Leitura → Option (List Texto)
ler_baseline inexistente = some []
ler_baseline Leitura.ilegivel = none
ler_baseline (lido conteudo) = some (linhas_aceitas (split 10 conteudo))

-- What the command writes, and its exit code.
pub data Saida : Type 0 where
  listada : Texto → Saida
  arquitetura_ok : ℕ → ℕ → Saida

pub data Erro : Type 0 where
  falha : Erro
  violacao_nova : Texto → Erro
  baseline_obsoleto : Texto → Erro

pub record Execucao : Type 0 where
  pub codigo : ℕ
  pub saida : List Saida
  pub erros : List Erro

abbrev pub com_erro : Execucao
com_erro = record { codigo = 2; saida = []; erros = falha ∷ [] }

-- The lines of the two loops: violations that are not accepted, accepted lines that are not seen.
abbrev pub novas : List Texto → List Violacao → List Violacao
novas aceitas atuais = keep (λ v. not (contida (escrita v) aceitas)) atuais

abbrev pub obsoletas : List Texto → List Violacao → List Texto
obsoletas aceitas atuais =
    ordenar (λ t. t) (keep (λ t. not (contida t (map escrita atuais))) aceitas)

abbrev pub nenhum {ℓ} : {A : Type ℓ} → List A → Bool
nenhum [] = true
nenhum (_ ∷ _) = false

unfoldable pub comparar : Bool → List Violacao → List Texto → Execucao
comparar estrito atuais aceitas =
    let ns = novas aceitas atuais in
    let os = obsoletas aceitas atuais in
    let limpo = nenhum ns && (not estrito || nenhum os) in
    record {
      codigo = if limpo then 0 else 1;
      saida = if limpo then arquitetura_ok (length atuais) (length os) ∷ [] else [];
      erros = map (λ v. violacao_nova (escrita v)) ns ++ map baseline_obsoleto os;
    }

abbrev pub com_baseline : Bool → List Violacao → Option (List Texto) → Execucao
com_baseline estrito atuais none = com_erro
com_baseline estrito atuais (some aceitas) = comparar estrito atuais aceitas

abbrev pub com_verificacao : Option (List Violacao) → Option Leitura → Bool → Bool → Execucao
com_verificacao none baseline gerar estrito = com_erro
com_verificacao (some atuais) baseline true estrito = record {
  codigo = 0;
  saida = map (λ v. listada (escrita v)) atuais;
  erros = [];
}
com_verificacao (some atuais) none false estrito = comparar estrito atuais []
com_verificacao (some atuais) (some l) false estrito = com_baseline estrito atuais (ler_baseline l)

-- `executar`; no baseline is the empty flag.
unfoldable pub executar : Servico → Option Leitura → Bool → Bool → Execucao
executar s baseline gerar estrito = com_verificacao (verificar s) baseline gerar estrito

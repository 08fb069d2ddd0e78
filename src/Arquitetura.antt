-- ===== src/Arquitetura.antt =====
-- cmd/deelp-arquitetura/main.go: the checker of the layers of a service. The tree under the root is what
-- `filepath.WalkDir` visits, in its order; a file has the import paths that go/parser finds in it, none
-- where it does not parse. Flags and the printing of a library's error are left out.
pub mod Imports
pub mod Achados
pub mod Comando
pub mod Baseline
use deelp_pkg.Texto.{
  Texto, codes, vazio, eq_texto, has_prefix, has_suffix, trim_prefix, trim_space, split,
}
use deelp_pkg.Ordem.{ordenar}
use deelp_pkg.Prelude.{
  [], ◌∷◌, true, false, none, some, ◌&&◌, ◌||◌, Bool, List, Option, if◌then◌else◌, ℕ, ◌++◌, any,
  keep, map, not, length,
}

-- `regra` and `regras`.
pub record Regra : Type 0 where
  pub origem : Texto
  pub proibidas : List Texto

abbrev pub regras : List Regra
regras =
    record {
      origem = codes "internal/domain";
      proibidas =
          codes "internal/application" ∷ codes "internal/adapters" ∷ codes "internal/infra" ∷ [];
    }
    ∷ record {
      origem = codes "internal/application";
      proibidas = codes "internal/adapters" ∷ codes "internal/infra" ∷ [];
    }
    ∷ []

-- `violacao` and its `String`.
pub record Violacao : Type 0 where
  pub arquivo : Texto
  pub importa : Texto

abbrev pub escrita : Violacao → Texto
escrita v = v.arquivo ++ codes " -> " ++ v.importa

-- What the walk meets under a name.
mutual
  pub data Entrada : Type 0 where
    arquivo_go : Texto → Option (List Texto) → Entrada
    diretorio : Texto → Entradas → Entrada
    ilegivel : Texto → Entrada

  pub data Entradas : Type 0 where
    nenhuma : Entradas
    entrada : Entrada → Entradas → Entradas

abbrev pub barra : Texto
barra = codes "/"

-- `regraDe`.
unfoldable pub regra_em : List Regra → Texto → Option Regra
regra_em [] relativo = none
regra_em (r ∷ rs) relativo =
    let resto = regra_em rs relativo in
    if has_prefix relativo (r.origem ++ barra) then some r else resto

abbrev pub regra_de : Texto → Option Regra
regra_de = regra_em regras

-- The loop over `r.proibidas` for one import, inside the module already cut off.
unfoldable pub proibicoes : Texto → Texto → List Texto → List Violacao
proibicoes relativo interno [] = []
proibicoes relativo interno (proibida ∷ ps) =
    let resto = proibicoes relativo interno ps in
    if eq_texto interno proibida || has_prefix interno (proibida ++ barra)
    then record { arquivo = relativo; importa = interno } ∷ resto
    else resto

-- The loop over the imports of a file.
unfoldable pub do_import : Texto → Texto → Regra → Texto → List Violacao
do_import modulo relativo r caminho =
    if not (has_prefix caminho (modulo ++ barra))
    then []
    else proibicoes relativo (trim_prefix caminho (modulo ++ barra)) r.proibidas

unfoldable pub dos_imports : Texto → Texto → Regra → List Texto → List Violacao
dos_imports modulo relativo r [] = []
dos_imports modulo relativo r (caminho ∷ cs) =
    do_import modulo relativo r caminho ++ dos_imports modulo relativo r cs

-- What the callback of the walk does with a file: the violations it appends, none an error.
abbrev pub com_imports : Texto → Texto → Regra → Option (List Texto) → Option (List Violacao)
com_imports modulo relativo r none = none
com_imports modulo relativo r (some cs) = some (dos_imports modulo relativo r cs)

abbrev pub com_regra : Texto → Texto → Option (List Texto) → Option Regra → Option (List Violacao)
com_regra modulo relativo imports none = some []
com_regra modulo relativo imports (some r) = com_imports modulo relativo r imports

unfoldable pub do_arquivo : Texto → Texto → Option (List Texto) → Option (List Violacao)
do_arquivo modulo relativo imports =
    if not (has_suffix relativo (codes ".go")) || has_suffix relativo (codes "_test.go")
    then some []
    else com_regra modulo relativo imports (regra_de relativo)

-- The directories that the callback skips below the root.
unfoldable pub pulada : Texto → Bool
pulada nome =
    eq_texto nome (codes "vendor")
    || eq_texto nome (codes "testdata")
    || has_prefix nome (codes ".")

-- `filepath.Rel` of a name below a directory; the root is empty.
abbrev pub abaixo : Texto → Texto → Texto
abaixo caminho nome = if vazio caminho then nome else caminho ++ barra ++ nome

-- The first error ends the walk.
abbrev pub depois : Option (List Violacao) → Option (List Violacao) → Option (List Violacao)
depois none o = none
depois (some vs) none = none
depois (some vs) (some ws) = some (vs ++ ws)

unfoldable mutual
  pub visitar : Texto → Texto → Entrada → Option (List Violacao)
  visitar modulo caminho (arquivo_go nome imports) = do_arquivo modulo (abaixo caminho nome) imports
  visitar modulo caminho (ilegivel nome) = if pulada nome then some [] else none
  visitar modulo caminho (diretorio nome es) =
      let dentro = visitar_todas modulo (abaixo caminho nome) es in
      if pulada nome then some [] else dentro

  pub visitar_todas : Texto → Texto → Entradas → Option (List Violacao)
  visitar_todas modulo caminho nenhuma = some []
  visitar_todas modulo caminho (entrada e es) =
      depois (visitar modulo caminho e) (visitar_todas modulo caminho es)

-- `moduloDe` on the lines of go.mod.
unfoldable pub modulo_de : List Texto → Option Texto
modulo_de [] = none
modulo_de (texto ∷ ls) =
    let resto = modulo_de ls in
    let linha = trim_space texto in
    if has_prefix linha (codes "module ")
    then some (trim_space (trim_prefix linha (codes "module ")))
    else resto

-- A service: the lines of its go.mod if it can be read, and what lies under its root.
pub record Servico : Type 0 where
  pub go_mod : Option (List Texto)
  pub raiz : Entradas

abbrev pub ordenadas : Option (List Violacao) → Option (List Violacao)
ordenadas none = none
ordenadas (some vs) = some (ordenar escrita vs)

abbrev pub com_modulo : Entradas → Option Texto → Option (List Violacao)
com_modulo raiz none = none
com_modulo raiz (some modulo) = ordenadas (visitar_todas modulo [] raiz)

abbrev pub modulo_do_servico : Option (List Texto) → Option Texto
modulo_do_servico none = none
modulo_do_servico (some linhas) = modulo_de linhas

-- `Verificar`: none is an error.
unfoldable pub verificar : Servico → Option (List Violacao)
verificar s = com_modulo s.raiz (modulo_do_servico s.go_mod)

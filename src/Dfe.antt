-- ===== src/Dfe.antt =====
-- dfe/s3key.go: the canonical S3 keys of the fiscal documents.
pub mod Laws
use deelp_pkg.Texto.{
  Texto, Unicode, codes, vazio, eq_texto, byte_len, has_suffix, trim_suffix, trim_slash, trim_space,
  to_lower, is_digit,
}
use deelp_pkg.Auth.Mask.{itoa}
use deelp_pkg.Prelude.{pos, ◌||◌, if◌then◌else◌, keep, ℤ, ◌++◌, leb, ltb_ℤ, not, pos_part, take}

-- `SomenteDigitos`.
unfoldable pub somente_digitos : Unicode → Texto → Texto
somente_digitos u s = keep (is_digit u) s

-- `NormalizarAmbiente`.
unfoldable pub normalizar_ambiente : Unicode → Texto → Texto
normalizar_ambiente u valor =
    let v = to_lower u (trim_space valor) in
    if eq_texto v (codes "1")
      || eq_texto v (codes "producao")
      || eq_texto v (codes "production")
      || eq_texto v (codes "prod")
    then codes "producao"
    else codes "homologacao"

-- `NormalizarTipo`, whose two branches give the same.
abbrev pub normalizar_tipo : Unicode → Texto → Texto
normalizar_tipo u tipo = to_lower u (trim_space tipo)

-- `normalizarCompetencia`, of a text whose first seven code points are ASCII, as in the documented AAAA-MM.
unfoldable pub normalizar_competencia : Texto → Texto
normalizar_competencia c = let c' = trim_space c in if leb 7 (byte_len c') then take 7 c' else c'

abbrev pub barra : Texto
barra = codes "/"

-- `baseDocumento`.
unfoldable pub base_documento : Unicode → Texto → Texto → Texto → Texto → Texto → Texto
base_documento u inscricao ambiente tipo competencia chave_acesso =
    somente_digitos u inscricao
    ++ barra
    ++ normalizar_ambiente u ambiente
    ++ barra
    ++ normalizar_tipo u tipo
    ++ barra
    ++ normalizar_competencia competencia
    ++ barra
    ++ trim_space chave_acesso

-- The name of the artefact in `ChaveDocumento`.
unfoldable pub nome_artefato : Unicode → Texto → Texto
nome_artefato u artefato =
    let art = trim_slash (to_lower u (trim_space artefato)) in
    let art' = if vazio art then codes "envio" else art in
    if not (has_suffix art' (codes ".xml")) then art' ++ codes ".xml" else art'

-- `ChaveDocumento`.
unfoldable pub chave_documento : Unicode → Texto → Texto → Texto → Texto → Texto → Texto → Texto
chave_documento u inscricao ambiente tipo competencia chave_acesso artefato =
    base_documento u inscricao ambiente tipo competencia chave_acesso
    ++ barra
    ++ nome_artefato u artefato

-- The name of the event in `ChaveEvento`, without its suffix.
unfoldable pub nome_evento : Unicode → Texto → ℤ → Texto
nome_evento u evento seq =
    let nome = trim_suffix (trim_slash (to_lower u (trim_space evento))) (codes ".xml") in
    let nome' = if vazio nome then codes "evento" else nome in
    if ltb_ℤ (pos 0) seq then nome' ++ codes "-seq" ++ itoa (pos_part seq) else nome'

-- `ChaveEvento`.
unfoldable pub chave_evento : Unicode → Texto → Texto → Texto → Texto → Texto → Texto → ℤ → Texto
chave_evento u inscricao ambiente tipo competencia chave_acesso evento seq =
    base_documento u inscricao ambiente tipo competencia chave_acesso
    ++ codes "/eventos/"
    ++ nome_evento u evento seq
    ++ codes ".xml"

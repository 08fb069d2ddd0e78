-- ===== src/Observabilidade/Redacao.antt =====
-- observabilidade/redacao.go: which parts of a path are replaced, and observabilidade/exportador.go: the
-- attributes of an exported span. The regular expressions are written as tests; `Letras` is the tables of
-- letters past ASCII. Mensagem has the redaction of free text.
pub mod Caminho
pub mod Regexp
pub mod Mensagem
pub mod Numeros
pub mod Digitos
pub mod Redigida
use deelp_pkg.Texto.{
  Texto, Unicode, codes, vazio, eq_texto, has_prefix, contains, split, join, byte_len, is_digit,
  is_ascii_digit, is_ascii_upper,
}
use deelp_pkg.Auth.Tenant.{parece_uuid}
use deelp_pkg.Prelude.{
  [], ◌∷◌, true, false, none, some, ◌&&◌, ◌||◌, ◌==◌, Bool, List, Option, if◌then◌else◌, map, ℕ,
  drop, keep, leb, length, ltb, not, take, all, ◌*◌,
}

pub record Letras : Type 0 where
  pub minuscula : ℕ → Bool
  pub maiuscula : ℕ → Bool
  pub letra : ℕ → Bool

abbrev is_ascii_lower : ℕ → Bool
is_ascii_lower c = leb b'a' c && leb c b'z'

-- `unicode.IsLower`, `unicode.IsUpper`, `unicode.IsLetter`.
abbrev is_lower : Letras → ℕ → Bool
is_lower l c = if ltb c 128 then is_ascii_lower c else l.minuscula c

abbrev is_upper : Letras → ℕ → Bool
is_upper l c = if ltb c 128 then is_ascii_upper c else l.maiuscula c

abbrev pub is_letter : Letras → ℕ → Bool
is_letter l c = if ltb c 128 then is_ascii_lower c || is_ascii_upper c else l.letra c

-- `segmentoNumerico`, `segmentoTelefone`, `segmentoCPFCNPJ`.
unfoldable pub segmento_numerico : Texto → Bool
segmento_numerico s = leb 10 (length s) && all is_ascii_digit s

unfoldable pub segmento_telefone : Texto → Bool
segmento_telefone [] = false
segmento_telefone (c ∷ s) = c == b'+' && leb 8 (length s) && all is_ascii_digit s

abbrev barra_ou_traco : ℕ → Bool
barra_ou_traco c = c == b'/' || c == b'-'

abbrev final_cpf_cnpj : Texto → Bool
final_cpf_cnpj [] = false
final_cpf_cnpj (c ∷ s) =
    barra_ou_traco c
    && leb 2 (length s)
    && leb (length s) 7
    && all (λ d. is_ascii_digit d || barra_ou_traco d) s

abbrev tres_digitos : Texto → Bool
tres_digitos s = length s == 3 && all is_ascii_digit s

-- After two or three digits: `.ddd.ddd`, and the end.
abbrev resto_cpf_cnpj : Texto → Bool
resto_cpf_cnpj s =
    eq_texto (take 1 s) (codes ".")
    && tres_digitos (take 3 (drop 1 s))
    && eq_texto (take 1 (drop 4 s)) (codes ".")
    && tres_digitos (take 3 (drop 5 s))
    && final_cpf_cnpj (drop 8 s)

unfoldable pub segmento_cpf_cnpj : Texto → Bool
segmento_cpf_cnpj s =
    length (take 2 s) == 2 && all is_ascii_digit (take 2 s) && resto_cpf_cnpj (drop 2 s)
    || tres_digitos (take 3 s) && resto_cpf_cnpj (drop 3 s)

-- `textoJWT`, anywhere in the text: `eyJ` and two parts that a dot ends, none empty.
abbrev de_jwt : ℕ → Bool
de_jwt c = is_ascii_digit c || is_ascii_lower c || is_ascii_upper c || c == b'_' || c == b'-'

abbrev apos_parte : Texto → Option Texto
apos_parte [] = none
apos_parte (c ∷ s) =
    let resto = apos_parte s in if de_jwt c then resto else if c == b'.' then some s else none

abbrev apos_parte_cheia : Texto → Option Texto
apos_parte_cheia [] = none
apos_parte_cheia (c ∷ s) = if de_jwt c then apos_parte s else none

abbrev duas_partes : Option Texto → Bool
duas_partes none = false
duas_partes (some s) = elim (apos_parte_cheia s) [ none ↦ false | some r ↦ true ]

unfoldable pub texto_jwt : Texto → Bool
texto_jwt [] = false
texto_jwt (c ∷ s) =
    let resto = texto_jwt s in
    if has_prefix (c ∷ s) (codes "eyJ")
    then duas_partes (apos_parte_cheia (drop 2 s)) || resto
    else resto

-- `strings.FieldsFunc`: the fields that are not empty; here at `-` and `_`.
abbrev separador : ℕ → Bool
separador c = c == b'-' || c == b'_'

abbrev na_frente : ℕ → List Texto → List Texto
na_frente c [] = (c ∷ []) ∷ []
na_frente c (p ∷ ps) = (c ∷ p) ∷ ps

abbrev partes_de : (ℕ → Bool) → Texto → List Texto
partes_de f [] = [] ∷ []
partes_de f (c ∷ s) = let resto = partes_de f s in if f c then [] ∷ resto else na_frente c resto

abbrev pub fields_func : (ℕ → Bool) → Texto → List Texto
fields_func f s = keep (λ p. not (vazio p)) (partes_de f s)

abbrev pub partes : Texto → List Texto
partes = fields_func separador

-- What a segment of 24 bytes or more has, unless a character is of no kind.
record Achado : Type 0 where
  pub digito : Bool
  pub maiuscula : Bool
  pub minuscula : Bool

module _ (u : Unicode) (l : Letras) where
  -- `palavraDeIdentificador`.
  unfoldable pub palavra_de_identificador : Texto → Bool
  palavra_de_identificador parte = if ltb (byte_len parte) 3 then false else all (is_lower l) parte

  -- `pareceIdentificador`.
  unfoldable pub parece_identificador : Texto → Bool
  parece_identificador seg =
      let ps = partes seg in
      if ltb (length ps) 3
      then false
      else leb (length ps * 6) (length (keep palavra_de_identificador ps) * 10)

  -- The loop over the characters in `segmentoSensivel`.
  abbrev achado : Texto → Option Achado
  achado [] = some (record { digito = false; maiuscula = false; minuscula = false })
  achado (c ∷ s) = elim (achado s) [
    | none ↦ none
    | some a ↦
        if is_digit u c
        then some (record a { digito = true })
        else if is_upper l c
        then some (record a { maiuscula = true })
        else if is_letter l c
        then some (record a { minuscula = true })
        else if c == b'-' || c == b'_' || c == b'='
        then some a
        else none
  ]

  abbrev parece_token : Texto → Option Achado → Bool
  parece_token seg none = false
  parece_token seg (some a) =
      if not a.digito || parece_identificador seg
      then false
      else leb 32 (byte_len seg) || a.maiuscula && a.minuscula

  -- `segmentoSensivel`.
  unfoldable pub segmento_sensivel : Texto → Bool
  segmento_sensivel seg =
      if contains seg (codes "@")
        || segmento_telefone seg
        || parece_uuid seg
        || segmento_numerico seg
        || segmento_cpf_cnpj seg
        || texto_jwt seg
      then true
      else if ltb (byte_len seg) 24
      then false
      else parece_token seg (achado seg)

  -- `sanitizarPath`.
  abbrev pub trocar_segmento : Texto → Texto
  trocar_segmento s = if segmento_sensivel s then codes ":id" else s

  unfoldable pub sanitizar_path : Texto → Texto
  sanitizar_path path = join b'/' (map trocar_segmento (split b'/' path))

  -- `sanitizarURL`; `absoluta` is what url.Parse, the changes to its parts and String make of a text with a
  -- scheme, given what is done to the path, and none its error.
  abbrev ate_interrogacao : Texto → Texto
  ate_interrogacao [] = []
  ate_interrogacao (c ∷ s) = let resto = ate_interrogacao s in if c == b'?' then [] else c ∷ resto

  abbrev ou_invalida : Option Texto → Texto
  ou_invalida none = codes "[url inválida]"
  ou_invalida (some t) = t

  unfoldable pub sanitizar_url : ((Texto → Texto) → Texto → Option Texto) → Texto → Texto
  sanitizar_url absoluta bruta =
      if not (contains bruta (codes "://"))
      then sanitizar_path (ate_interrogacao bruta)
      else ou_invalida (absoluta sanitizar_path bruta)

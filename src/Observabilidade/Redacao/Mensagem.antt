-- ===== src/Observabilidade/Redacao/Mensagem.antt =====
-- observabilidade/redacao.go: `redigirTexto`, with its regular expressions.
use deelp_pkg.Texto.{Texto, Unicode, codes, byte_len, eq_texto, has_prefix, split, is_digit}
use deelp_pkg.Observabilidade.Redacao.{Letras, fields_func, is_letter, segmento_sensivel}
use deelp_pkg.Observabilidade.Redacao.Regexp.{
  Regexp, um, estrela, seq, ou, grupo, borda, digito, letra, em, espaco, mais, vezes, talvez,
  literal, sem_caixa, replace_all, entre,
}
use deelp_pkg.Prelude.{
  [], ◌∷◌, false, none, some, ◌&&◌, ◌||◌, ◌==◌, Bool, List, Option, if◌then◌else◌, ℕ, all, leb, ltb,
  length, not, take, drop, ◌++◌, ◌-◌, suc, zero, any,
}

infixr 4 ◌⨾◌
abbrev ◌⨾◌ : Regexp → Regexp → Regexp
a ⨾ b = seq a b

-- `textoJWT`, as `ReplaceAllString` finds it.
abbrev jwt : ℕ → Bool
jwt c = letra c || digito c || em "_-" c

unfoldable pub regexp_jwt : Regexp
regexp_jwt =
    literal (codes "eyJ")
    ⨾ mais jwt
    ⨾ literal (codes ".")
    ⨾ mais jwt
    ⨾ literal (codes ".")
    ⨾ estrela jwt

abbrev nao_espaco : ℕ → Bool
nao_espaco c = not (espaco c)

abbrev dois_pontos_ou_igual : Regexp
dois_pontos_ou_igual = estrela espaco ⨾ um (em ":=") ⨾ estrela espaco

-- `textoAutorizacao` and `textoBearer`.
unfoldable pub texto_autorizacao : Regexp
texto_autorizacao =
    borda
    ⨾ sem_caixa (codes "authorization")
    ⨾ borda
    ⨾ dois_pontos_ou_igual
    ⨾ talvez (ou (sem_caixa (codes "bearer")) (sem_caixa (codes "basic")) ⨾ mais espaco)
    ⨾ mais nao_espaco

unfoldable pub texto_bearer : Regexp
texto_bearer = sem_caixa (codes "bearer") ⨾ mais espaco ⨾ mais nao_espaco

-- `textoSegredo`.
abbrev uma_de : List Texto → Regexp
uma_de [] = um (λ c. false)
uma_de (t ∷ ts) = ou (sem_caixa t) (uma_de ts)

abbrev com_traco : Texto → Texto → Regexp
com_traco a b = sem_caixa a ⨾ talvez (um (em "_-")) ⨾ sem_caixa b

abbrev nome_do_segredo : Regexp
nome_do_segredo =
    ou (uma_de (codes "password" ∷ codes "passwd" ∷ codes "senha" ∷ codes "secret" ∷ [])) (
      ou (com_traco (codes "api") (codes "key")) (
        ou (com_traco (codes "access") (codes "token"))
          (uma_de (codes "token" ∷ codes "cookie" ∷ codes "x-internal-key" ∷ []))))

abbrev entre_aspas : ℕ → Regexp
entre_aspas q = um (λ c. c == q) ⨾ estrela (λ c. not (c == q)) ⨾ um (λ c. c == q)

unfoldable pub texto_segredo : Regexp
texto_segredo =
    borda
    ⨾ grupo nome_do_segredo
    ⨾ borda
    ⨾ dois_pontos_ou_igual
    ⨾ ou (entre_aspas 34) (ou (entre_aspas 39) (mais nao_espaco))

-- `textoCredencial`, `textoEmail`, `textoAWS`, `textoNumero`.
unfoldable pub texto_credencial : Regexp
texto_credencial =
    grupo (um letra ⨾ estrela (λ c. letra c || digito c || em "+.-" c) ⨾ literal (codes "://"))
    ⨾ mais (λ c. not (em "@/:" c || espaco c))
    ⨾ literal (codes ":")
    ⨾ mais (λ c. not (em "@/" c || espaco c))
    ⨾ literal (codes "@")

unfoldable pub texto_email : Regexp
texto_email =
    mais (λ c. letra c || digito c || em "._%+-" c)
    ⨾ literal (codes "@")
    ⨾ mais (λ c. letra c || digito c || em ".-" c)
    ⨾ literal (codes ".")
    ⨾ vezes 2 letra
    ⨾ estrela letra

unfoldable pub texto_aws : Regexp
texto_aws =
    borda
    ⨾ ou (literal (codes "AKIA")) (literal (codes "ASIA"))
    ⨾ vezes 16 (λ c. entre b'A' b'Z' c || digito c)
    ⨾ borda

abbrev pub de_numero : ℕ → Bool
de_numero c = digito c || em ".-/ " c

abbrev pub texto_numero : Regexp
texto_numero = seq (um digito) (seq (vezes 8 de_numero) (seq (estrela de_numero) (um digito)))

-- `numeroIPv4` and `numeroData`, by the parts between dots and between dashes.
abbrev digitos : ℕ → ℕ → Texto → Bool
digitos a b s = leb a (length s) && leb (length s) b && all digito s

abbrev pub quatro_partes : List Texto → Bool
quatro_partes (a ∷ b ∷ c ∷ d ∷ []) =
    digitos 1 3 a && digitos 1 3 b && digitos 1 3 c && digitos 1 3 d
quatro_partes ps = false

unfoldable pub numero_ipv4 : Texto → Bool
numero_ipv4 m = quatro_partes (split b'.' m)

abbrev pub dia_e_hora : Texto → Bool
dia_e_hora s =
    digitos 2 2 s
    || digitos 2 2 (take 2 s) && eq_texto (take 1 (drop 2 s)) (codes " ") && digitos 1 2 (drop 3 s)

abbrev pub tres_partes : List Texto → Bool
tres_partes (a ∷ b ∷ c ∷ []) = digitos 4 4 a && digitos 2 2 b && dia_e_hora c
tres_partes ps = false

unfoldable pub numero_data : Texto → Bool
numero_data m = tres_partes (split b'-' m)

-- `mascararNumero`.
unfoldable pub mascarar_numero : Texto → Texto
mascarar_numero m = if numero_ipv4 m || numero_data m then m else codes "[numero]"

-- `strings.NewReplacer`: at each place the first of the old texts, in the order of the arguments, that is there.
abbrev pub primeiro : Texto → List (Texto × Texto) → Option (Texto × Texto)
primeiro s [] = none
primeiro s ((velho, novo) ∷ ps) =
    let resto = primeiro s ps in if has_prefix s velho then some (velho, novo) else resto

abbrev pub par_ou : ℕ → Option (Texto × Texto) → (ℕ → Texto) → Texto
par_ou c none segue = c ∷ segue 0
par_ou c (some (velho, novo)) segue = novo ++ segue (length velho - 1)

unfoldable pub replace : List (Texto × Texto) → ℕ → Texto → Texto
replace pares pular [] = []
replace pares (suc pular) (c ∷ s) = replace pares pular s
replace pares zero (c ∷ s) = par_ou c (primeiro (c ∷ s) pares) (λ n. replace pares n s)

-- `limiteTextoRedigido`.
abbrev limite_texto_redigido : ℕ
limite_texto_redigido = 2000

abbrev cortar_texto : Texto → Texto
cortar_texto msg =
    if ltb limite_texto_redigido (byte_len msg) then take limite_texto_redigido msg else msg

abbrev trocar_por : Regexp → Texto → Texto → Texto
trocar_por r novo msg = replace_all r (λ m g. novo) none 0 msg

abbrev trocar_apos_grupo : Regexp → Texto → Texto → Texto
trocar_apos_grupo r novo msg = replace_all r (λ m g. g ++ novo) none 0 msg

-- The replacements by regular expressions, up to the one of numbers.
abbrev pub sem_credenciais : Texto → Texto
sem_credenciais msg =
    let m1 = trocar_por regexp_jwt (codes "[jwt]") (cortar_texto msg) in
    let m2 = trocar_por texto_autorizacao (codes "Authorization: [redigido]") m1 in
    let m3 = trocar_por texto_bearer (codes "bearer [token]") m2 in
    let m4 = trocar_apos_grupo texto_segredo (codes "=[redigido]") m3 in
    let m5 = trocar_apos_grupo texto_credencial (codes "[credenciais]@") m4 in
    let m6 = trocar_por texto_email (codes "[email]") m5 in
    trocar_por texto_aws (codes "[chave-aws]") m6

abbrev pub sem_numeros : Texto → Texto
sem_numeros msg = replace_all texto_numero (λ m g. mascarar_numero m) none 0 msg

module _ (u : Unicode) (l : Letras) where
  abbrev pub fora_de_palavra : ℕ → Bool
  fora_de_palavra c = not (is_letter l c || is_digit u c || em "-_=" c)

  -- The loop over the words, with those that were seen.
  abbrev pub pares_de : List Texto → List Texto → List (Texto × Texto)
  pares_de vistos [] = []
  pares_de vistos (p ∷ ps) =
      let novo = leb 24 (byte_len p) && not (any (eq_texto p) vistos) && segmento_sensivel u l p in
      let resto = pares_de (if novo then p ∷ vistos else vistos) ps in
      if novo then (p, codes "[token]") ∷ resto else resto

  abbrev pub sem_tokens : Texto → Texto
  sem_tokens msg = replace (pares_de [] (fields_func fora_de_palavra msg)) 0 msg

  -- `redigirTexto`.
  unfoldable pub redigir_texto : Texto → Texto
  redigir_texto msg = sem_tokens (sem_numeros (sem_credenciais msg))

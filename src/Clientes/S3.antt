-- ===== src/Clientes/S3.antt =====
-- s3/cliente.go: the client of the bucket, over the operations of the AWS library.
use deelp_pkg.Texto.{Texto, codes, vazio, eq_texto, trim_space}
use deelp_pkg.Texto.Laws.{eq→eq_texto, eq_texto→eq}
use deelp_pkg.Prelude.{
  [], ◌∷◌, true, false, none, some, inl, inr, ◌&&◌, Bool, List, Option, if◌then◌else◌, ℤ, ◌≢◌, All,
  any, not, ℕ, ◌++◌, ◌≡◌, Bool-cases, refl, arith, none_ne_some, ◌⊎◌, sym, ap, ◌↔◌, keep, map,
}

-- `Config`, without the logger.
pub record ConfigS3 : Type 0 where
  pub region : Texto
  pub bucket : Texto
  pub access_key : Texto
  pub secret_key : Texto
  pub cors_origin : Texto
  pub endpoint : Texto

pub data ErroS3 : Type 0 where
  region_obrigatorio bucket_obrigatorio sem_origem origem_curinga falha_s3 : ErroS3

-- `validar`.
unfoldable pub validar_s3 : ConfigS3 → Option ErroS3
validar_s3 c =
    if vazio (trim_space c.region)
    then some region_obrigatorio
    else if vazio (trim_space c.bucket)
    then some bucket_obrigatorio
    else none

-- What `Open` gives to the library: static credentials if both keys are there, and an endpoint with the path
-- style if one is given.
pub record OpcoesS3 : Type 0 where
  pub region : Texto
  pub credenciais : Option (Texto × Texto)
  pub endpoint : Option Texto
  pub bucket : Texto

unfoldable pub opcoes_s3 : ConfigS3 → Option OpcoesS3
opcoes_s3 c = elim (validar_s3 c) [
  | some e ↦ none
  | none ↦ some (record {
    region = c.region;
    credenciais =
        if not (vazio c.access_key) && not (vazio c.secret_key)
        then some (c.access_key, c.secret_key)
        else none;
    endpoint = if not (vazio (trim_space c.endpoint)) then some (trim_space c.endpoint) else none;
    bucket = c.bucket;
  })
]

-- An object as `PutObject` is given it; the access is private.
pub record Objeto : Type 0 where
  pub key : Texto
  pub body : List ℕ
  pub content_type : Texto
  pub metadata : List (Texto × Texto)
  pub aes256 : Bool

-- The rule of CORS: the origins allowed to read, for an hour.
pub record Aws (S : Type 0) : Type 0 where
  pub put_bucket_cors : S → Texto → List Texto → S × Bool
  pub put_object : S → Texto → Objeto → S × Bool
  pub get_object : S → Texto → Texto → Option (List ℕ)
  pub delete_object : S → Texto → Texto → S × Bool
  pub head_bucket : S → Texto → Bool
  pub presign : Texto → Texto → ℤ → Option Texto
  pub pages : S → Texto → Texto → List (Option (List Texto))

-- The loop over the origins, trimmed and not empty.
unfoldable pub origens_validas : List Texto → List Texto
origens_validas [] = []
origens_validas (origem ∷ os) =
    let resto = origens_validas os in
    if not (vazio (trim_space origem)) then trim_space origem ∷ resto else resto

abbrev curinga : Texto → Bool
curinga origem = eq_texto origem (codes "*")

-- The pages of a listing, which the first error ends.
unfoldable pub juntar_paginas : List (Option (List Texto)) → Option (List Texto)
juntar_paginas [] = some []
juntar_paginas (none ∷ ps) = none
juntar_paginas (some chaves ∷ ps) = elim (juntar_paginas ps) [
  | none ↦ none
  | some resto ↦ some (chaves ++ resto)
]

module _ {S : Type 0} (aws : Aws S) (bucket : Texto) where
  -- `ConfigurarCORS`: the error, if any.
  abbrev da_chamada : S × Bool → S × Option ErroS3
  da_chamada (s, true) = (s, none)
  da_chamada (s, false) = (s, some falha_s3)

  abbrev pub com_validas : S → List Texto → S × Option ErroS3
  com_validas s [] = (s, some sem_origem)
  com_validas s (o ∷ os) =
      if any curinga (o ∷ os)
      then (s, some origem_curinga)
      else da_chamada (aws.put_bucket_cors s bucket (o ∷ os))

  unfoldable pub configurar_cors : S → List Texto → S × Option ErroS3
  unfolding origens_validas
  configurar_cors s origens = com_validas s (origens_validas origens)

  -- `NewCliente`, once the client is open: an error of CORS is logged only.
  unfoldable pub ao_abrir : S → ConfigS3 → S
  ao_abrir s c = if not (vazio c.cors_origin) then (configurar_cors s (c.cors_origin ∷ [])).0 else s

  -- `Upload` and `UploadCifrado`.
  unfoldable pub upload : S → Texto → List ℕ → Texto → List (Texto × Texto) → S × Option ErroS3
  upload s key conteudo mime metadados = da_chamada (
      aws.put_object s bucket (record {
        key = key;
        body = conteudo;
        content_type = mime;
        metadata = metadados;
        aes256 = false;
      }))

  unfoldable pub upload_cifrado :
      S → Texto → List ℕ → Texto → List (Texto × Texto) → S × Option ErroS3
  upload_cifrado s key conteudo mime metadados =
      let tipo = if vazio (trim_space mime) then codes "application/octet-stream" else mime in
      da_chamada (
        aws.put_object s bucket (record {
          key = key;
          body = conteudo;
          content_type = tipo;
          metadata = metadados;
          aes256 = true;
        }))

  -- `Download`, `Excluir`, `PresignedURL`, `HeadBucket`, `ListarPrefixo`.
  unfoldable pub download : S → Texto → Option (List ℕ)
  download s key = aws.get_object s bucket key

  unfoldable pub excluir : S → Texto → S × Bool
  excluir s key = aws.delete_object s bucket key

  unfoldable pub presigned_url : Texto → ℤ → Option Texto
  presigned_url key validade = aws.presign bucket key validade

  unfoldable pub head_bucket : S → Bool
  head_bucket s = aws.head_bucket s bucket

  unfoldable pub listar_prefixo : S → Texto → Option (List Texto)
  listar_prefixo s prefixo = juntar_paginas (aws.pages s bucket prefixo)

-- What is to reach the bucket of the origins that are given.
abbrev pub aparadas : List Texto → List Texto
aparadas os = keep (λ o. not (vazio o)) (map trim_space os)

-- At least one origin, and none the wildcard.
abbrev pub IsOrigens : List Texto → Type 0
IsOrigens os = (os ≢ []) × All (λ o. o ≢ codes "*") os

origens_validas-eq-aparadas : (os : List Texto) → origens_validas os ≡ aparadas os
unfolding origens_validas
origens_validas-eq-aparadas [] = refl
origens_validas-eq-aparadas (o ∷ os) = rw (origens_validas-eq-aparadas os) refl

sem_curinga : (os : List Texto) → any curinga os ≡ false → All (λ o. o ≢ codes "*") os
sem_curinga [] h = tt
sem_curinga (o ∷ os) h =
    ((λ e. ground (arith, eq→eq_texto o (codes "*") e)), sem_curinga os (ground arith))

com_curinga : (os : List Texto) → any curinga os ≡ true → ¬ All (λ o. o ≢ codes "*") os
com_curinga [] h k = absurd (ground arith)
com_curinga (o ∷ os) h (k, ks) = elim (Bool-cases (curinga o)) [
  | inl e ↦ k (eq_texto→eq o (codes "*") e)
  | inr e ↦ com_curinga os (ground (arith, h, e)) ks
]

abbrev vazia : List Texto → Bool
vazia [] = true
vazia (o ∷ os) = false

module _ {S : Type 0} (aws : Aws S) (bucket : Texto) where
  -- The origins are not right, nothing is done and there is an error; or they are given to the bucket, and there
  -- is an error exactly if the bucket answers with one.
  abbrev pub Configura : S → List Texto → S × Option ErroS3 → Type 0
  Configura s vs x =
      ((¬ IsOrigens vs) × (x.0 ≡ s) × (x.1 ≢ none))
      ⊎ (IsOrigens vs
          × (x.0 ≡ (aws.put_bucket_cors s bucket vs).0)
          × ((x.1 ≡ none) ↔ ((aws.put_bucket_cors s bucket vs).1 ≡ true)))

  da_chamada-cases :
      (x : S × Bool)
      → ((da_chamada aws bucket x).0 ≡ x.0) × (((da_chamada aws bucket x).1 ≡ none) ↔ (x.1 ≡ true))
  da_chamada-cases (s, true) = (refl, (λ h. refl, λ h. refl))
  da_chamada-cases (s, false) =
      (refl, (λ h. absurd (none_ne_some (sym h)), λ h. absurd (ground (arith, h))))

  com_validas-Configura : (s : S) (vs : List Texto) → Configura s vs (com_validas aws bucket s vs)
  com_validas-Configura s [] = inl (λ k. k.0 refl, refl, λ e. none_ne_some (sym e))
  com_validas-Configura s (o ∷ os) = elim (Bool-cases (any curinga (o ∷ os))) [
    | inl e ↦ rw e (inl (λ k. com_curinga (o ∷ os) e k.1, refl, λ k. none_ne_some (sym k)))
    | inr e ↦
        let (a, b) = da_chamada-cases (aws.put_bucket_cors s bucket (o ∷ os)) in
        rw e (inr ((λ k. ground (arith, ap vazia k), sem_curinga (o ∷ os) e), a, b))
  ]

  -- Let the origins be those given, each trimmed, without the empty ones. If there is one and none is the
  -- wildcard, they are set, all of them in their order, as those allowed to read the bucket, and there is an error
  -- exactly if the bucket answers with one; else there is an error and the bucket is not called.
  pub configurar_cors-Configura :
      (s : S) (origens : List Texto)
      → Configura s (aparadas origens) (configurar_cors aws bucket s origens)
  unfolding configurar_cors
  configurar_cors-Configura s origens =
      rw (← origens_validas-eq-aparadas origens) (com_validas-Configura s (origens_validas origens))

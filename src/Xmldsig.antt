-- ===== src/Xmldsig.antt =====
-- xmldsig/signer.go: signing a fiscal document and checking its signature. `Etree` is the XML library with the
-- canonicalisation and the signing of goxmldsig: `D` is the state of a document's elements, which are
-- references `E`; `Cripto` the libraries of certificates and keys. Bytes are numbers.
pub mod Passos
pub mod Validacao
pub mod Assinatura
use deelp_pkg.Texto.{Texto, codes, vazio, eq_texto}
use deelp_pkg.Prelude.{
  [], ◌∷◌, true, false, none, some, Bool, List, Option, if◌then◌else◌, ℕ, ◌++◌, ◌||◌, not,
}

-- A private key of a PKCS#12 file, or a public key of a certificate: RSA, or of another kind.
pub data Chave (K : Type 0) : Type 0 where
  rsa : K → Chave K
  outra : Chave K

-- `SigningContext`, as `Assinar` sets it; the canonicalizer is the inclusive C14N of `canonicalizadorDFe`.
pub data Canonicalizer : Type 0 where
  c14n_10_rec : Canonicalizer

pub data SignatureMethod : Type 0 where
  rsa_sha1 : SignatureMethod

-- `MemoryX509KeyStore`: the pair of a key and a certificate, the leaf alone.
pub record MemoryX509KeyStore (K C : Type 0) : Type 0 where
  pub private_key : K
  pub cert : C

pub record SigningContext (K C : Type 0) : Type 0 where
  pub key_store : MemoryX509KeyStore K C
  pub canonicalizer : Canonicalizer
  pub prefix : Texto
  pub id_attribute : Texto
  pub signature_method : SignatureMethod

-- `find_element` searches the document by a path, `find_in` below an element; `sign_enveloped` gives a signed
-- copy of the element; `add_child` adds the element as the last child.
pub record Etree (D E K C : Type 0) : Type 0 where
  pub read_from_bytes : List ℕ → Option D
  pub find_element : D → Texto → Option E
  pub find_in : D → E → Texto → Option E
  pub text : D → E → Texto
  pub parent : D → E → Option E
  pub set_signature_method : SignatureMethod → Bool
  pub sign_enveloped : SigningContext K C → D → E → Option (D × E)
  pub remove_child : D → E → E → D
  pub add_child : D → E → E → D
  pub write_to_bytes : D → Option (List ℕ)
  pub canonicalize : Canonicalizer → D → E → Option (List ℕ)

pub record Cripto (K P C : Type 0) : Type 0 where
  pub decode_chain : List ℕ → Texto → Option (Chave K × C)
  pub parse_certificate : List ℕ → Option C
  pub public_key : C → Chave P
  pub sha1 : List ℕ → List ℕ
  pub base64_encode : List ℕ → Texto
  pub base64_decode : Texto → Option (List ℕ)
  pub verify_pkcs1v15 : P → List ℕ → List ℕ → Bool

pub data ErroXml : Type 0 where
  pkcs12_invalido chave_nao_rsa metodo_recusado xml_ilegivel tag_nao_encontrada sem_pai : ErroXml
  falha_ao_assinar sem_assinatura falha_ao_escrever xml_vazio sem_signature sem_signed_info :
      ErroXml
  assinatura_incompleta certificado_base64 certificado_x509 alvo_sem_canonica digest_diferente :
      ErroXml
  signed_info_sem_canonica signature_base64 assinatura_invalida : ErroXml

pub data Resultado (A : Type 0) : Type 0 where
  ok : A → Resultado A
  erro : ErroXml → Resultado A

infixl 5 ◌>>=◌
abbrev pub ◌>>=◌ : {A B : Type 0} → Resultado A → (A → Resultado B) → Resultado B
ok a >>= f = f a
erro e >>= f = erro e

infixl 5 ◌>>◌
abbrev pub ◌>>◌ : {A B : Type 0} → Resultado A → Resultado B → Resultado B
ok a >> m = m
erro e >> m = erro e

-- `if x == nil { return erro }`, and `if ! b { return erro }`.
abbrev pub ou_erro : {A : Type 0} → Option A → ErroXml → Resultado A
ou_erro none e = erro e
ou_erro (some a) e = ok a

abbrev pub exigir : Bool → ErroXml → Resultado (Unit {0})
exigir true e = ok tt
exigir false e = erro e

abbrev pub chave_rsa : {K : Type 0} → Chave K → Option K
chave_rsa (rsa k) = some k
chave_rsa outra = none

module _ {D E K P C : Type 0} (x : Etree D E K C) (k : Cripto K P C) where
  -- `textoDe`.
  unfoldable pub texto_de : D → E → Texto → Texto
  texto_de d el path = elim (x.find_in d el path) [ none ↦ [] | some e ↦ x.text d e ]

  -- `parseCertB64`.
  unfoldable pub parse_cert_b64 : Texto → Resultado C
  parse_cert_b64 b64 = do
    der ← ou_erro (k.base64_decode b64) certificado_base64
    ou_erro (k.parse_certificate der) certificado_x509

  -- The signing context of `Assinar`.
  abbrev pub contexto : K → C → SigningContext K C
  contexto private_key cert = record {
    key_store = record { private_key = private_key; cert = cert };
    canonicalizer = c14n_10_rec;
    prefix = [];
    id_attribute = codes "Id";
    signature_method = rsa_sha1;
  }

  -- The document in which the signature of the signed copy stands below the parent of the target.
  abbrev pub posicionado : D → E → E → E → D
  posicionado d assinado pai sig = x.add_child (x.remove_child d assinado sig) pai sig

  -- `Assinar`.
  unfoldable pub assinar : List ℕ → List ℕ → Texto → Texto → Resultado (List ℕ)
  assinar xml pfx senha tag_alvo = do
    par ← ou_erro (k.decode_chain pfx senha) pkcs12_invalido
    rsa_key ← ou_erro (chave_rsa par.0) chave_nao_rsa
    exigir (x.set_signature_method rsa_sha1) metodo_recusado
    doc ← ou_erro (x.read_from_bytes xml) xml_ilegivel
    alvo ← ou_erro (x.find_element doc (codes "//" ++ tag_alvo)) tag_nao_encontrada
    pai ← ou_erro (x.parent doc alvo) sem_pai
    copia ← ou_erro (x.sign_enveloped (contexto rsa_key par.1) doc alvo) falha_ao_assinar
    sig ← ou_erro (x.find_in copia.0 copia.1 (codes "Signature")) sem_assinatura
    ou_erro (x.write_to_bytes (posicionado copia.0 copia.1 pai sig)) falha_ao_escrever

  -- The texts of a signature that `Validar` reads.
  abbrev pub digest_value : D → E → Texto
  digest_value d sig = texto_de d sig (codes "SignedInfo/Reference/DigestValue")

  abbrev pub signature_value : D → E → Texto
  signature_value d sig = texto_de d sig (codes "SignatureValue")

  abbrev pub x509_b64 : D → E → Texto
  x509_b64 d sig = texto_de d sig (codes "KeyInfo/X509Data/X509Certificate")

  abbrev pub completa : D → E → Bool
  completa d sig =
      not (vazio (digest_value d sig) || vazio (signature_value d sig) || vazio (x509_b64 d sig))

  -- `Validar`, on the parts of the document: the certificate, then the digest, then the signature.
  unfoldable pub conferir : D → E → E → E → Resultado (Unit {0})
  conferir doc alvo sig signed_info = do
    cert ← parse_cert_b64 (x509_b64 doc sig)
    pub_key ← ou_erro (chave_rsa (k.public_key cert)) chave_nao_rsa
    canon_alvo ← ou_erro (x.canonicalize c14n_10_rec doc alvo) alvo_sem_canonica
    exigir (eq_texto (k.base64_encode (k.sha1 canon_alvo)) (digest_value doc sig)) digest_diferente
    canon_si ← ou_erro (x.canonicalize c14n_10_rec doc signed_info) signed_info_sem_canonica
    raw_sig ← ou_erro (k.base64_decode (signature_value doc sig)) signature_base64
    exigir (k.verify_pkcs1v15 pub_key (k.sha1 canon_si) raw_sig) assinatura_invalida

  unfoldable pub passos : List ℕ → Texto → Resultado (Unit {0})
  passos xml tag_alvo = do
    exigir (not (vazio xml)) xml_vazio
    doc ← ou_erro (x.read_from_bytes xml) xml_ilegivel
    alvo ← ou_erro (x.find_element doc (codes "//" ++ tag_alvo)) tag_nao_encontrada
    sig ← ou_erro (x.find_element doc (codes "//Signature")) sem_signature
    signed_info ← ou_erro (x.find_in doc sig (codes "SignedInfo")) sem_signed_info
    exigir (completa doc sig) assinatura_incompleta
    conferir doc alvo sig signed_info

  abbrev pub com_bool : Resultado (Unit {0}) → Bool × Option ErroXml
  com_bool (ok a) = (true, none)
  com_bool (erro e) = (false, some e)

  -- `Validar`, with its two results.
  unfoldable pub validar : List ℕ → Texto → Bool × Option ErroXml
  validar xml tag_alvo = com_bool (passos xml tag_alvo)

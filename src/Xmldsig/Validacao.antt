-- ===== src/Xmldsig/Validacao.antt =====
-- Which signatures `Validar` accepts.
use deelp_pkg.Xmldsig.{
  Resultado, ErroXml, rsa, ok, erro, chave_rsa, ◌>>=◌, Etree, Cripto, conferir, parse_cert_b64,
  x509_b64, c14n_10_rec, certificado_base64, chave_nao_rsa, digest_value, alvo_sem_canonica,
  signature_value, digest_diferente, signed_info_sem_canonica, signature_base64, passos, xml_vazio,
  xml_ilegivel, tag_nao_encontrada, sem_signature, sem_signed_info, completa, assinatura_incompleta,
  com_bool, validar,
}
use deelp_pkg.Prelude.{
  true, false, none, some, refl, ◌≡◌, List, ℕ, [], not, ◌≢◌, ◌++◌, inl, inr, ◌⊎◌, arith,
}
use deelp_pkg.Texto.{eq_texto, Texto, codes, vazio}
use deelp_pkg.Texto.Laws.{eq_texto→eq, eq→eq_texto}
use deelp_pkg.Xmldsig.Passos.{
  >>=-eq-ok, ou_erro-eq-ok, passo, passo_de_guarda, chave_rsa-eq-some, exigir-eq-ok, nao_vazio_iff,
  completa_partes, partes_completa,
}

module _ {D E K P C : Type 0} (x : Etree D E K C) (k : Cripto K P C) where
  -- A signature that confirms an element of a document: the certificate that it carries has an RSA key, the
  -- digest that it carries is that of the element, and with that key it signs its own SignedInfo.
  pub record Confirma (doc : D) (alvo sig signed_info : E) : Type 0 where
    pub der : List ℕ
    pub cert : C
    pub pub_key : P
    pub canon_alvo : List ℕ
    pub canon_si : List ℕ
    pub raw_sig : List ℕ
    pub der_lido : k.base64_decode (x509_b64 x k doc sig) ≡ some der
    pub cert_lido : k.parse_certificate der ≡ some cert
    pub chave : k.public_key cert ≡ rsa pub_key
    pub alvo_canonico : x.canonicalize c14n_10_rec doc alvo ≡ some canon_alvo
    pub digest : k.base64_encode (k.sha1 canon_alvo) ≡ digest_value x k doc sig
    pub si_canonico : x.canonicalize c14n_10_rec doc signed_info ≡ some canon_si
    pub assinatura : k.base64_decode (signature_value x k doc sig) ≡ some raw_sig
    pub verificada : k.verify_pkcs1v15 pub_key (k.sha1 canon_si) raw_sig ≡ true

  conferir-Confirma :
      (doc : D) (alvo sig signed_info : E)
      → conferir x k doc alvo sig signed_info ≡ ok tt
      → Confirma doc alvo sig signed_info
  unfolding conferir parse_cert_b64
  conferir-Confirma doc alvo sig signed_info h =
      let (cert, hc, h1) = >>=-eq-ok (parse_cert_b64 x k (x509_b64 x k doc sig)) _ tt h in
      let (der, hd, hx) =
        passo (k.base64_decode (x509_b64 x k doc sig)) certificado_base64 _ cert hc in
      let (key, hk, h2) = passo (chave_rsa (k.public_key cert)) chave_nao_rsa _ tt h1 in
      let (ca, ha, h3) = passo (x.canonicalize c14n_10_rec doc alvo) alvo_sem_canonica _ tt h2 in
      let (hg, h4) =
        passo_de_guarda (eq_texto (k.base64_encode (k.sha1 ca)) (digest_value x k doc sig))
          digest_diferente _ tt h3 in
      let (cs, hs, h5) =
        passo (x.canonicalize c14n_10_rec doc signed_info) signed_info_sem_canonica _ tt h4 in
      let (raw, hr, h6) =
        passo (k.base64_decode (signature_value x k doc sig)) signature_base64 _ tt h5 in
      record {
        der = der;
        cert = cert;
        pub_key = key;
        canon_alvo = ca;
        canon_si = cs;
        raw_sig = raw;
        der_lido = hd;
        cert_lido = ou_erro-eq-ok _ _ _ hx;
        chave = chave_rsa-eq-some _ _ hk;
        alvo_canonico = ha;
        digest = eq_texto→eq _ _ hg;
        si_canonico = hs;
        assinatura = hr;
        verificada = exigir-eq-ok _ _ h6;
      }

  Confirma-conferir :
      (doc : D) (alvo sig signed_info : E)
      → Confirma doc alvo sig signed_info
      → conferir x k doc alvo sig signed_info ≡ ok tt
  unfolding conferir parse_cert_b64
  Confirma-conferir doc alvo sig signed_info c =
      rw (c.der_lido, ◌>>=◌)
        (rw (c.cert_lido) (
          rw (c.chave) (
            rw (c.alvo_canonico) (
              rw (eq→eq_texto _ _ c.digest)
                (rw (c.si_canonico) (rw (c.assinatura) (rw (c.verificada) refl)))))))

  -- A document that is read has an element of the tag, and the first of its signatures has all its parts and
  -- confirms the first such element.
  pub record Confere (xml : List ℕ) (tag_alvo : Texto) : Type 0 where
    pub doc : D
    pub alvo : E
    pub sig : E
    pub signed_info : E
    pub lido : x.read_from_bytes xml ≡ some doc
    pub nao_vazio : xml ≢ []
    pub alvo_achado : x.find_element doc (codes "//" ++ tag_alvo) ≡ some alvo
    pub sig_achada : x.find_element doc (codes "//Signature") ≡ some sig
    pub si_achado : x.find_in doc sig (codes "SignedInfo") ≡ some signed_info
    pub com_digest : digest_value x k doc sig ≢ []
    pub com_signature : signature_value x k doc sig ≢ []
    pub com_x509 : x509_b64 x k doc sig ≢ []
    pub confirma : Confirma doc alvo sig signed_info

  passos-Confere :
      (xml : List ℕ) (tag_alvo : Texto) → passos x k xml tag_alvo ≡ ok tt → Confere xml tag_alvo
  unfolding passos
  passos-Confere xml tag_alvo h =
      let (hv, h1) = passo_de_guarda (not (vazio xml)) xml_vazio _ tt h in
      let (doc, hd, h2) = passo (x.read_from_bytes xml) xml_ilegivel _ tt h1 in
      let (alvo, ha, h3) =
        passo (x.find_element doc (codes "//" ++ tag_alvo)) tag_nao_encontrada _ tt h2 in
      let (sig, hs, h4) = passo (x.find_element doc (codes "//Signature")) sem_signature _ tt h3 in
      let (si, hi, h5) = passo (x.find_in doc sig (codes "SignedInfo")) sem_signed_info _ tt h4 in
      let (hc, h6) = passo_de_guarda (completa x k doc sig) assinatura_incompleta _ tt h5 in
      let (a, b, c) = completa_partes _ _ _ hc in
      record {
        doc = doc;
        alvo = alvo;
        sig = sig;
        signed_info = si;
        lido = hd;
        nao_vazio = (nao_vazio_iff xml).0 hv;
        alvo_achado = ha;
        sig_achada = hs;
        si_achado = hi;
        com_digest = a;
        com_signature = b;
        com_x509 = c;
        confirma = conferir-Confirma doc alvo sig si h6;
      }

  Confere-passos :
      (xml : List ℕ) (tag_alvo : Texto) → Confere xml tag_alvo → passos x k xml tag_alvo ≡ ok tt
  unfolding passos
  Confere-passos xml tag_alvo c = rw ((nao_vazio_iff xml).1 c.nao_vazio) (
      rw (c.lido, ◌>>=◌)
        (rw (c.alvo_achado) (
          rw (c.sig_achada) (
            rw (c.si_achado) (
              rw (partes_completa _ _ _ c.com_digest c.com_signature c.com_x509)
                (Confirma-conferir c.doc c.alvo c.sig c.signed_info c.confirma))))))

  com_bool-cases :
      (r : Resultado (Unit {0})) {Q : Type 0}
      → (r ≡ ok tt → Q)
      → (Q → r ≡ ok tt)
      → ((com_bool x k r ≡ (true, none)) × Q)
        ⊎ ((e : ErroXml) × (com_bool x k r ≡ (false, some e)) × ¬ Q)
  com_bool-cases (ok a) f g = inl (refl, f refl)
  com_bool-cases (erro e) f g = inr (e, refl, λ q. absurd (ground (arith, g q)))

  -- `Validar` answers true, without an error, exactly if the bytes are a document that has the element and whose
  -- first signature is complete, carries the digest of that element and a certificate with an RSA key, and is
  -- with that key a signature of its own SignedInfo; in every other case it answers false with an error.
  pub validar-Confere :
      (xml : List ℕ) (tag_alvo : Texto)
      → ((validar x k xml tag_alvo ≡ (true, none)) × Confere xml tag_alvo)
        ⊎ ((e : ErroXml) × (validar x k xml tag_alvo ≡ (false, some e)) × ¬ Confere xml tag_alvo)
  unfolding validar
  validar-Confere xml tag_alvo =
      com_bool-cases (passos x k xml tag_alvo) (passos-Confere xml tag_alvo)
        (Confere-passos xml tag_alvo)

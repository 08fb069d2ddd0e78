-- ===== src/Xmldsig/Assinatura.antt =====
-- What `Assinar` writes.
use deelp_pkg.Xmldsig.{
  rsa, ok, chave_rsa, ◌>>=◌, Etree, Cripto, chave_nao_rsa, xml_ilegivel, tag_nao_encontrada,
  assinar, rsa_sha1, contexto, pkcs12_invalido, metodo_recusado, sem_pai, falha_ao_assinar,
  sem_assinatura,
}
use deelp_pkg.Prelude.{true, some, refl, ◌≡◌, List, ℕ, ◌++◌, ◌↔◌, ◌∙◌, ap}
use deelp_pkg.Texto.{Texto, codes}
use deelp_pkg.Xmldsig.Passos.{ou_erro-eq-ok, passo, passo_de_guarda, chave_rsa-eq-some}

module _ {D E K P C : Type 0} (x : Etree D E K C) (k : Cripto K P C) where
  -- Bytes of a document in which the signature of the first element of a tag stands as the last child of that
  -- element's parent: it was made with the RSA key and the certificate of the PKCS#12 file, over the element that
  -- the attribute Id names, by RSA-SHA1 and the inclusive C14N, and was taken out of the signed copy.
  pub record Assinado (xml pfx : List ℕ) (senha tag_alvo : Texto) (saida : List ℕ) : Type 0 where
    pub rsa_key : K
    pub cert : C
    pub doc : D
    pub alvo : E
    pub pai : E
    pub copia : D
    pub assinado : E
    pub sig : E
    pub decodificado : k.decode_chain pfx senha ≡ some (rsa rsa_key, cert)
    pub metodo : x.set_signature_method rsa_sha1 ≡ true
    pub lido : x.read_from_bytes xml ≡ some doc
    pub alvo_achado : x.find_element doc (codes "//" ++ tag_alvo) ≡ some alvo
    pub pai_achado : x.parent doc alvo ≡ some pai
    pub feita : x.sign_enveloped (contexto x k rsa_key cert) doc alvo ≡ some (copia, assinado)
    pub sig_achada : x.find_in copia assinado (codes "Signature") ≡ some sig
    pub escrita :
        x.write_to_bytes (x.add_child (x.remove_child copia assinado sig) pai sig) ≡ some saida

  -- `Assinar` succeeds exactly with such bytes.
  assinar-Assinado :
      (xml pfx : List ℕ) (senha tag_alvo : Texto) (saida : List ℕ)
      → (assinar x k xml pfx senha tag_alvo ≡ ok saida) ↔ Assinado xml pfx senha tag_alvo saida
  unfolding assinar
  assinar-Assinado xml pfx senha tag_alvo saida = (
    λ h.
        let (par, hp, h1) = passo (k.decode_chain pfx senha) pkcs12_invalido _ saida h in
        let (key, hk, h2) = passo (chave_rsa par.0) chave_nao_rsa _ saida h1 in
        let (hm, h3) =
          passo_de_guarda (x.set_signature_method rsa_sha1) metodo_recusado _ saida h2 in
        let (doc, hd, h4) = passo (x.read_from_bytes xml) xml_ilegivel _ saida h3 in
        let (alvo, ha, h5) =
          passo (x.find_element doc (codes "//" ++ tag_alvo)) tag_nao_encontrada _ saida h4 in
        let (pai, hq, h6) = passo (x.parent doc alvo) sem_pai _ saida h5 in
        let (copia, hc, h7) =
          passo (x.sign_enveloped (contexto x k key par.1) doc alvo) falha_ao_assinar _ saida h6 in
        let (sig, hs, h8) =
          passo (x.find_in copia.0 copia.1 (codes "Signature")) sem_assinatura _ saida h7 in
        record {
          rsa_key = key;
          cert = par.1;
          doc = doc;
          alvo = alvo;
          pai = pai;
          copia = copia.0;
          assinado = copia.1;
          sig = sig;
          decodificado = hp ∙ ap (λ q. some (q, par.1)) (chave_rsa-eq-some par.0 key hk);
          metodo = hm;
          lido = hd;
          alvo_achado = ha;
          pai_achado = hq;
          feita = hc;
          sig_achada = hs;
          escrita = ou_erro-eq-ok _ _ _ h8;
        },
    λ a.
        rw (a.decodificado, ◌>>=◌)
          (rw (a.metodo) (
            rw (a.lido) (
              rw (a.alvo_achado)
                (rw (a.pai_achado) (rw (a.feita) (rw (a.sig_achada) (rw (a.escrita) refl))))))),
  )

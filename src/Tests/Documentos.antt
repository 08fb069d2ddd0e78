-- ===== src/Tests/Documentos.antt =====
-- Documents, their keys and signatures, and numbers, at concrete inputs.
use deelp_pkg.Tests.{so_ascii}
use deelp_pkg.Texto.{Texto, codes}
use deelp_pkg.Dfe.{somente_digitos, normalizar_ambiente}
use deelp_pkg.Dfe.Laws.{artefato, chave-somente_digitos}
use deelp_pkg.Telefone.{normalizar_whatsapp_br}
use deelp_pkg.Telefone.Laws.{VazioOuValido, normalizar_whatsapp_br-valido}
use deelp_pkg.Xmldsig.{Etree, Cripto, ErroXml, rsa, validar}
use deelp_pkg.Xmldsig.Validacao.{Confere, validar-Confere}
use deelp_pkg.Prelude.{ℕ, [], ◌∷◌, true, false, none, some, refl, ◌≡◌, ◌↔◌, ◌⊎◌}

abbrev celular : Texto
celular = codes "(51) 99999-0000"

normalizar_whatsapp_br-valido_example :
    VazioOuValido (normalizar_whatsapp_br so_ascii celular)
    × (normalizar_whatsapp_br so_ascii (normalizar_whatsapp_br so_ascii celular)
        ≡ normalizar_whatsapp_br so_ascii celular)
    × ((normalizar_whatsapp_br so_ascii celular ≡ celular) ↔ VazioOuValido celular)
normalizar_whatsapp_br-valido_example = normalizar_whatsapp_br-valido so_ascii celular

chave-somente_digitos_example :
    (somente_digitos so_ascii (codes "12.3") ≡ somente_digitos so_ascii (codes "123"))
    × (normalizar_ambiente so_ascii (codes "1") ≡ normalizar_ambiente so_ascii (codes " Prod"))
unfolding deelp_pkg.Dfe.somente_digitos deelp_pkg.Dfe.chave_documento deelp_pkg.Dfe.base_documento
    deelp_pkg.Dfe.nome_artefato deelp_pkg.Texto.is_digit normalizar_ambiente
    deelp_pkg.Texto.trim_space deelp_pkg.Dfe.normalizar_competencia deelp_pkg.Texto.to_lower
    deelp_pkg.Texto.byte_len deelp_pkg.Texto.eq_texto deelp_pkg.Texto.trim_slash
    deelp_pkg.Texto.has_suffix
chave-somente_digitos_example =
    chave-somente_digitos so_ascii (codes "12.3") (codes "1") (codes "nfe") (codes "2026-01")
      (codes "k") (artefato (codes "proc")) (codes "123") (codes " Prod") (codes "NFe")
      (codes "2026-01-31") (codes "k") (artefato (codes "proc.xml")) refl

-- Documents are numbers and elements too; every text is there, and every signature is good.
abbrev etree_teste : Etree ℕ ℕ ℕ ℕ
etree_teste = record {
  read_from_bytes = λ bs. some 0;
  find_element = λ d p. some 1;
  find_in = λ d e p. some 2;
  text = λ d e. codes "x";
  parent = λ d e. some 3;
  set_signature_method = λ m. true;
  sign_enveloped = λ c d e. some (d, e);
  remove_child = λ d e f. d;
  add_child = λ d e f. d;
  write_to_bytes = λ d. some (7 ∷ []);
  canonicalize = λ c d e. some (e ∷ []);
}

abbrev cripto_teste : Cripto ℕ ℕ ℕ
cripto_teste = record {
  decode_chain = λ bs s. some (rsa 4, 5);
  parse_certificate = λ bs. some 5;
  public_key = λ c. rsa 4;
  sha1 = λ bs. bs;
  base64_encode = λ bs. codes "x";
  base64_decode = λ t. some (6 ∷ []);
  verify_pkcs1v15 = λ k h s. true;
}

validar-Confere_example :
    ((validar etree_teste cripto_teste (7 ∷ []) (codes "infNFe") ≡ (true, none))
      × Confere etree_teste cripto_teste (7 ∷ []) (codes "infNFe"))
    ⊎ ((e : ErroXml) × (validar etree_teste cripto_teste (7 ∷ []) (codes "infNFe")
          ≡ (false, some e))
        × ¬ Confere etree_teste cripto_teste (7 ∷ []) (codes "infNFe"))
validar-Confere_example = validar-Confere etree_teste cripto_teste (7 ∷ []) (codes "infNFe")

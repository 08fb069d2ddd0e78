-- ===== src/Tenantdados/Transporte/Remoto.antt =====
-- The purge of tenantdados/transporte/cliente.go against the one that the routes of handlers.go do.
use deelp_pkg.Texto.{Texto, codes, is_ascii_digit, eq_texto, vazio}
use deelp_pkg.Texto.Laws.{SemSeparador, vazio_iff, eq_texto_refl, eq→eq_texto}
use deelp_pkg.Auth.Mask.{itoa}
use deelp_pkg.Tenantdados.{
  RelatorioExpurgo, Expurgo, fase_invalida, interrompido, completo, Servico, expurgar,
}
use deelp_pkg.Tenantdados.Cliente.{
  Cliente, Requisicao, escrito, escrito_bool, RespostaInterna, expurgar_remoto, relatorio_remoto,
  requisicao,
}
use deelp_pkg.Tenantdados.Transporte.{
  Chamada, caminho_expurgo, envolver, handler_expurgo, empresa_da_chamada, Resposta, relatada,
  simular_de, caminho_exportacao,
}
use deelp_pkg.Tenantdados.Transporte.Rede.{
  IsEntregue, cortar, cortar-append, append-cancel, relatorio_vazio, na_rede, valor_da_consulta,
  valor-fase, valor-simular,
}
use mathlib.Core.List.{append_assoc}
use deelp_pkg.Texto.Inteiro.{atoi}
use deelp_pkg.Prelude.{
  ℕ, [], ◌∷◌, true, false, pos, refl, ◌==◌, Bool, all, ◌++◌, arith, ◌≡◌, ap, sym, ◌∙◌, some, ◌&&◌,
  Option, ◌≢◌, inl, inr, Bool-cases, not, ◌<◌, ◌^◌,
}
use deelp_pkg.Internalauth.{valida, Verificador}
use deelp_pkg.Texto.Inteiro.{atoi}
use deelp_pkg.Http.{Request, is_method}
use deelp_pkg.Auth.Mask.Laws.{digitos-itoa, atoi-itoa}

-- The query of a purge, and the request that `Expurgar` sends.
abbrev consulta_do_expurgo : ℕ → Bool → Texto
consulta_do_expurgo n simular =
    codes "fase=" ++ (itoa n ++ (codes "&simular=" ++ escrito_bool simular))

abbrev pub pedido_de_expurgo : Cliente → Texto → ℕ → Bool → Requisicao
pedido_de_expurgo c empresa_id n simular = record {
  metodo = codes "POST";
  url =
      c.base_url
      ++ c.prefixo
      ++ (caminho_expurgo
          ++ codes "?fase="
          ++ escrito (pos n)
          ++ codes "&simular="
          ++ escrito_bool simular);
  internal_key = c.internal_key;
  empresa_id = empresa_id;
}

-- What the client makes of a purge.
abbrev pub recebido : Cliente → Expurgo → RelatorioExpurgo × Bool
recebido c fase_invalida = (record relatorio_vazio { servico = c.servico }, false)
recebido c (interrompido r nome) = (record r { servico = c.servico }, false)
recebido c (completo r) = (record r { servico = c.servico }, true)

digito-ne : (c : ℕ) → is_ascii_digit c ≡ true → (c == b'&') ≡ false
digito-ne c h = ground arith

digitos-SemSeparador : (s : Texto) → all is_ascii_digit s ≡ true → SemSeparador b'&' s
digitos-SemSeparador [] h = refl
digitos-SemSeparador (c ∷ s) h = ground (arith, digito-ne c, digitos-SemSeparador s)

bool-SemSeparador : (b : Bool) → SemSeparador b'&' (escrito_bool b)
bool-SemSeparador true = refl
bool-SemSeparador false = refl

url_do_expurgo :
    (c : Cliente) (id : Texto) (n : ℕ) (b : Bool)
    → (pedido_de_expurgo c id n b).url
      ≡ c.base_url ++ ((c.prefixo ++ caminho_expurgo) ++ (b'?' ∷ consulta_do_expurgo n b))
url_do_expurgo c id n b = simp append_assoc

prefixo-SemSeparador : (p : Texto) → SemSeparador b'?' p → SemSeparador b'?' (p ++ caminho_expurgo)
prefixo-SemSeparador [] h = refl
prefixo-SemSeparador (c ∷ p) h = ground (arith, prefixo-SemSeparador p)

-- The address and the query that a purge reaches the service with.
resto_do_expurgo :
    (c : Cliente) (id : Texto) (n : ℕ) (b : Bool) (ch : Chamada)
    → SemSeparador b'?' c.prefixo
    → (e : IsEntregue c.base_url (pedido_de_expurgo c id n b) ch)
    → cortar b'?' e.resto ≡ (c.prefixo ++ caminho_expurgo, consulta_do_expurgo n b)
resto_do_expurgo c id n b ch h e =
    ap (cortar b'?') (append-cancel c.base_url e.resto _ (sym e.url ∙ url_do_expurgo c id n b))
    ∙ cortar-append b'?' (c.prefixo ++ caminho_expurgo) (consulta_do_expurgo n b)
        (prefixo-SemSeparador c.prefixo h)

simular_lido : (b : Bool) → not (eq_texto (escrito_bool b) (codes "false")) ≡ b
unfolding eq_texto
simular_lido true = refl
simular_lido false = refl

post-ne-get : (t : Texto) → t ≡ codes "POST" → eq_texto t (codes "GET") ≡ false
unfolding eq_texto
post-ne-get t e = rw e refl

chave_valida :
    (v : Verificador) (r : Request)
    → v.chave ≢ []
    → r.header "X-Internal-Key" ≡ v.chave
    → valida (some v) (some r) ≡ true
unfolding valida
chave_valida v r n k = elim (Bool-cases (vazio v.chave)) [
  | inl e ↦ absurd (n ((vazio_iff v.chave).0 e))
  | inr e ↦ rw (k, e, eq_texto_refl v.chave) refl
]

enviado :
    (enviar : Requisicao → Option RespostaInterna) (c : Cliente) (escrito_id : Texto) (n : ℕ)
    (b : Bool)
    → c.base_url ≢ []
    → requisicao enviar c
        (codes "POST")
        (caminho_expurgo
          ++ codes "?fase="
          ++ escrito (pos n)
          ++ codes "&simular="
          ++ escrito_bool b)
        escrito_id
      ≡ enviar (pedido_de_expurgo c escrito_id n b)
unfolding requisicao
enviado enviar c escrito_id n b h = elim (Bool-cases (vazio c.base_url)) [
  | inl e ↦ absurd (h ((vazio_iff c.base_url).0 e))
  | inr e ↦ rw e refl
]

module _ {Uuid : Type 0} (parse : Texto → Option Uuid) (eh_nil : Uuid → Bool) {S : Type 0}
    (servico : Uuid → Servico S) where
  -- A purge that is sent with the service's key to the path of its route is the one of the company named.
  atendido :
      (v : Verificador) (proximo : S → Chamada → S × Resposta) (s : S) (ch : Chamada)
      (prefixo : Texto) (id : Uuid)
      → v.chave ≢ []
      → ch.pedido.method ≡ codes "POST"
      → ch.pedido.path ≡ prefixo ++ caminho_expurgo
      → ch.pedido.header "X-Internal-Key" ≡ v.chave
      → parse (ch.pedido.header "X-Empresa-Id") ≡ some id
      → eh_nil id ≡ false
      → envolver parse eh_nil servico prefixo (some v) proximo s ch
        ≡ relatada (expurgar (servico id) (atoi (ch.consulta "fase")).valor (simular_de ch) s)
  unfolding envolver handler_expurgo empresa_da_chamada valida
  atendido v proximo s ch prefixo id n m p k h z =
      let a : (is_method ch.pedido "GET" && eq_texto ch.pedido.path (prefixo ++ caminho_exportacao))
          ≡ false =
        rw (post-ne-get ch.pedido.method m) refl in
      let b : (is_method ch.pedido "POST" && eq_texto ch.pedido.path (prefixo ++ caminho_expurgo))
          ≡ true =
        rw
          (
            eq→eq_texto ch.pedido.method (codes "POST") m,
            eq→eq_texto ch.pedido.path (prefixo ++ caminho_expurgo) p,
          )
          refl in
      let c : valida (some v) (some ch.pedido) ≡ true = chave_valida v ch.pedido n k in
      rw (a, b, c, h, z) refl

  recebido-relatada :
      (enviar : Requisicao → Option RespostaInterna) (c : Cliente) (x : S × Expurgo) (f : ℕ)
      (b : Bool)
      → relatorio_remoto enviar c (pos f) b (some (na_rede (relatada x).1)) ≡ recebido c x.1
  recebido-relatada enviar c (s, fase_invalida) f b = refl
  recebido-relatada enviar c (s, interrompido r nome) f b = refl
  recebido-relatada enviar c (s, completo r) f b = refl

  lido_do_pedido :
      (c : Cliente) (escrito_id : Texto) (n : ℕ) (b : Bool) (ch : Chamada)
      → SemSeparador b'?' c.prefixo
      → n < 2 ^ 63
      → IsEntregue c.base_url (pedido_de_expurgo c escrito_id n b) ch
      → (ch.pedido.path ≡ c.prefixo ++ caminho_expurgo)
        × ((atoi (ch.consulta "fase")).valor ≡ pos n)
        × (simular_de ch ≡ b)
  lido_do_pedido c escrito_id n b ch h l e =
      let r = resto_do_expurgo c escrito_id n b ch h e in
      let d = digitos-SemSeparador (itoa n) (digitos-itoa n) in
      let f =
        e.consulta "fase"
        ∙ ap (λ q. valor_da_consulta q.1 "fase") r
        ∙ valor-fase (itoa n) (escrito_bool b) d (bool-SemSeparador b) in
      let s =
        e.consulta "simular"
        ∙ ap (λ q. valor_da_consulta q.1 "simular") r
        ∙ valor-simular (itoa n) (escrito_bool b) d (bool-SemSeparador b) in
      (e.caminho ∙ ap (λ q. q.0) r, rw (f, atoi-itoa n l) refl, rw s (simular_lido b))

  relatada-estado : (x : S × Expurgo) → (relatada x).0 ≡ x.0
  relatada-estado (s, fase_invalida) = refl
  relatada-estado (s, interrompido r nome) = refl
  relatada-estado (s, completo r) = refl

  -- A purge by the client of a phase that is not negative, counted or not, whose request is delivered to the service
  -- round which the routes stand and whose answer comes back, leaves the service's store as the purge there does,
  -- and gives its report, under the name that the client has for the service, and its success; if the client's
  -- key is the service's and not empty, its address not empty, and the company's id is read back and not nil.
  pub expurgar_remoto-expurgar :
      (enviar : Requisicao → Option RespostaInterna) (c : Cliente) (v : Verificador)
      (proximo : S → Chamada → S × Resposta) (s : S) (escrito_id : Texto) (id : Uuid) (n : ℕ)
      (b : Bool) (ch : Chamada)
      → c.base_url ≢ []
      → SemSeparador b'?' c.prefixo
      → v.chave ≡ c.internal_key
      → c.internal_key ≢ []
      → parse escrito_id ≡ some id
      → eh_nil id ≡ false
      → n < 2 ^ 63
      → IsEntregue c.base_url (pedido_de_expurgo c escrito_id n b) ch
      → enviar (pedido_de_expurgo c escrito_id n b)
        ≡ some (na_rede (envolver parse eh_nil servico c.prefixo (some v) proximo s ch).1)
      → (expurgar_remoto enviar c escrito_id (pos n) b
          ≡ recebido c (expurgar (servico id) (pos n) b s).1)
        × ((envolver parse eh_nil servico c.prefixo (some v) proximo s ch).0
            ≡ (expurgar (servico id) (pos n) b s).0)
  unfolding expurgar_remoto
  expurgar_remoto-expurgar enviar c v proximo s escrito_id id n b ch hb hp hk hn hi hz hl e he =
      let (p, f, m) = lido_do_pedido c escrito_id n b ch hp hl e in
      let a =
        atendido v proximo s ch c.prefixo id (λ k. hn (sym hk ∙ k)) e.metodo p (e.chave ∙ sym hk)
          (ap parse e.empresa ∙ hi) hz in
      let g : envolver parse eh_nil servico c.prefixo (some v) proximo s ch
          ≡ relatada (expurgar (servico id) (pos n) b s) =
        a ∙ rw (f, m) refl in
      let w = enviado enviar c escrito_id n b hb in
      (
        rw (w, he, g) (recebido-relatada enviar c (expurgar (servico id) (pos n) b s) n b),
        ap (λ q. q.0) g ∙ relatada-estado (expurgar (servico id) (pos n) b s),
      )

-- ===== src/Tenantdados/Transporte/Rede.antt =====
-- How a call of tenantdados/transporte/cliente.go reaches the routes of handlers.go: the parts of an address and
-- of its query, as net/url reads those that need no escape, and the JSON of the answers.
use deelp_pkg.Texto.{Texto, codes, split, has_prefix}
use deelp_pkg.Texto.Laws.{SemSeparador, split-linha, split-limpo}
use deelp_pkg.Tenantdados.{RelatorioExpurgo}
use deelp_pkg.Tenantdados.Transporte.{
  Chamada, Resposta, recusada, falhou, zip, relatado, relato_de_erro, de_outro,
}
use deelp_pkg.Tenantdados.Cliente.{Requisicao, RespostaInterna}
use deelp_pkg.Http.Status
use deelp_pkg.Prelude.{
  ℕ, [], ◌∷◌, true, false, none, some, pos, refl, ◌==◌, Bool, List, String, if◌then◌else◌, ◌++◌,
  ◌≡◌, ==_iff, drop, arith, length, ◌∙◌, ap,
}

-- The text before the first separator, and the one behind it.
unfoldable pub cortar : ℕ → Texto → Texto × Texto
cortar sep [] = ([], [])
cortar sep (c ∷ s) = let (a, b) = cortar sep s in if c == sep then ([], s) else (c ∷ a, b)

pub cortar-append :
    (sep : ℕ) (p s : Texto) → SemSeparador sep p → cortar sep (p ++ (sep ∷ s)) ≡ (p, s)
unfolding cortar
cortar-append sep [] s h = rw ((==_iff sep sep).1 refl) refl
cortar-append sep (c ∷ p) s h =
    let e : (c == sep) ≡ false = ground arith in rw (e, cortar-append sep p s (ground arith)) refl

-- The value of the first of the parts with a name.
pub valor : Texto → List Texto → Texto
valor nome [] = []
valor nome (p ∷ ps) =
    let depois = valor nome ps in if has_prefix p nome then drop (length nome) p else depois

abbrev pub valor_da_consulta : Texto → String → Texto
valor_da_consulta bruta nome = valor (codes nome ++ codes "=") (split b'&' bruta)

-- A call that delivers a request to the service at an address.
pub record IsEntregue (base : Texto) (q : Requisicao) (c : Chamada) : Type 0 where
  pub resto : Texto
  pub url : q.url ≡ base ++ resto
  pub metodo : c.pedido.method ≡ q.metodo
  pub caminho : c.pedido.path ≡ (cortar b'?' resto).0
  pub consulta : (nome : String) → c.consulta nome ≡ valor_da_consulta (cortar b'?' resto).1 nome
  pub chave : c.pedido.header "X-Internal-Key" ≡ q.internal_key
  pub empresa : c.pedido.header "X-Empresa-Id" ≡ q.empresa_id

-- The report without fields.
abbrev pub relatorio_vazio : RelatorioExpurgo
relatorio_vazio = record { servico = []; fase = pos 0; simulado = false; itens = [] }

abbrev com_envelope : ℕ → Bool → RelatorioExpurgo → RespostaInterna
com_envelope status sucesso r = record {
  status = status;
  corpo = none;
  envelope = some (record { sucesso = sucesso; conteudo = r });
}

-- What the client decodes of an answer to a purge.
abbrev pub na_rede : Resposta → RespostaInterna
na_rede (recusada status texto) = com_envelope status false relatorio_vazio
na_rede (falhou status) = com_envelope status false relatorio_vazio
na_rede (zip arquivos) = record { status = Status.ok; corpo = none; envelope = none }
na_rede (relatado r) = com_envelope Status.ok true r
na_rede (relato_de_erro status none) = com_envelope status false relatorio_vazio
na_rede (relato_de_erro status (some r)) = com_envelope status false r
na_rede (de_outro status) = record { status = status; corpo = none; envelope = none }

pub append-cancel : (p s t : Texto) → p ++ s ≡ p ++ t → s ≡ t
append-cancel [] s t h = h
append-cancel (c ∷ p) s t h = append-cancel p s t (cc)

pub split-consulta :
    (f s : Texto)
    → SemSeparador b'&' f
    → SemSeparador b'&' s
    → split b'&' (codes "fase=" ++ (f ++ (codes "&simular=" ++ s)))
      ≡ (codes "fase=" ++ f) ∷ (codes "simular=" ++ s) ∷ []
split-consulta f s h k =
    split-linha b'&' (codes "fase=" ++ f) (codes "simular=" ++ s) h
    ∙ ap (λ ps. (codes "fase=" ++ f) ∷ ps) (split-limpo b'&' (codes "simular=" ++ s) k)

-- The two values of the query of a purge are read back.
pub valor-fase :
    (f s : Texto)
    → SemSeparador b'&' f
    → SemSeparador b'&' s
    → valor_da_consulta (codes "fase=" ++ (f ++ (codes "&simular=" ++ s))) "fase" ≡ f
unfolding valor has_prefix
valor-fase f s h k = rw (split-consulta f s h k) refl

pub valor-simular :
    (f s : Texto)
    → SemSeparador b'&' f
    → SemSeparador b'&' s
    → valor_da_consulta (codes "fase=" ++ (f ++ (codes "&simular=" ++ s))) "simular" ≡ s
unfolding valor has_prefix
valor-simular f s h k = rw (split-consulta f s h k) refl

-- ===== src/Tests/Remoto.antt =====
-- A purge over the network, the blocker over a history, and a CSRF token that comes back, at concrete inputs.
use deelp_pkg.Tests.{so_ascii, leitura_teste, texto_discrete}
use deelp_pkg.Texto.{Texto, codes, vazio, is_space}
use deelp_pkg.Http.{Request, served}
use deelp_pkg.Internalauth.{Verificador}
use deelp_pkg.Tenantdados.{Contagem, Fonte, Servico, expurgar}
use deelp_pkg.Tenantdados.Transporte.{Chamada, Resposta, de_outro, envolver}
use deelp_pkg.Tenantdados.Cliente.{Cliente, Requisicao, RespostaInterna, expurgar_remoto}
use deelp_pkg.Tenantdados.Transporte.Rede.{IsEntregue, cortar, na_rede, valor_da_consulta}
use deelp_pkg.Tenantdados.Transporte.Remoto.{pedido_de_expurgo, recebido, expurgar_remoto-expurgar}
use deelp_pkg.Seguranca.IpBlocker.{esta_bloqueado}
use deelp_pkg.Seguranca.IpBlocker.Laws.{bloqueado_por}
use deelp_pkg.Seguranca.IpBlocker.History.{
  PedidoIp, falha, sucesso, consulta, limpeza, depois_de, registro, esta_bloqueado-registro,
}
use deelp_pkg.Seguranca.Csrf.{CsrfConfig, csrf_guard}
use deelp_pkg.Seguranca.Csrf.Token.{IsAlfabeto, csrf_token_handler, csrf_guard-csrf_token_handler}
use deelp_pkg.Prelude.{
  ℕ, [], ◌∷◌, true, false, none, some, pos, refl, List, Option, ◌≡◌, all, arith, map, not,
}

abbrev contagem_remota : Contagem
contagem_remota = record { fonte = codes "f"; quantidade = 2; retido = false; motivo = [] }

-- A source of phase one that empties the store.
abbrev fonte_remota : Fonte ℕ
fonte_remota = record {
  nome = codes "f";
  fase = pos 1;
  exportar = λ s. none;
  contar = λ s. some contagem_remota;
  apagar = λ s. (0, some contagem_remota);
}

abbrev servico_remoto : Texto → Servico ℕ
servico_remoto id = record { nome = codes "s"; fontes = fonte_remota ∷ [] }

abbrev cliente_teste : Cliente
cliente_teste = record {
  servico = codes "estoque";
  base_url = codes "http://e";
  prefixo = codes "/s";
  internal_key = codes "t";
}

abbrev resto_teste : Texto
resto_teste = codes "/s/interno/tenant/expurgo?fase=1&simular=false"

-- The call that arrives: its key and its company are the same text.
abbrev chegada : Chamada
chegada = record {
  pedido = record leitura_teste {
    method = codes "POST";
    path = codes "/s/interno/tenant/expurgo";
    header = λ nome. codes "t";
  };
  consulta = λ nome. valor_da_consulta (cortar b'?' resto_teste).1 nome;
}

abbrev verificador_remoto : Verificador
verificador_remoto = record { chave = codes "t" }

abbrev sem_rota : ℕ → Chamada → ℕ × Resposta
sem_rota s c = (s, de_outro 404)

abbrev lido_como_esta : Texto → Option Texto
lido_como_esta t = some t

abbrev respondida : ℕ × Resposta
respondida =
    envolver lido_como_esta vazio servico_remoto (codes "/s") (some verificador_remoto) sem_rota 5
      chegada

abbrev rede_teste : Requisicao → Option RespostaInterna
rede_teste q = some (na_rede respondida.1)

chegada-IsEntregue :
    IsEntregue (codes "http://e") (pedido_de_expurgo cliente_teste (codes "t") 1 false) chegada
unfolding cortar deelp_pkg.Auth.Mask.itoa
chegada-IsEntregue = record {
  resto = resto_teste;
  url = refl;
  metodo = refl;
  caminho = refl;
  consulta = λ nome. refl;
  chave = refl;
  empresa = refl;
}

expurgar_remoto-expurgar_example :
    (expurgar_remoto rede_teste cliente_teste (codes "t") (pos 1) false
      ≡ recebido cliente_teste (expurgar (servico_remoto (codes "t")) (pos 1) false 5).1)
    × (respondida.0 ≡ (expurgar (servico_remoto (codes "t")) (pos 1) false 5).0)
expurgar_remoto-expurgar_example =
    expurgar_remoto-expurgar lido_como_esta vazio servico_remoto rede_teste cliente_teste
      verificador_remoto sem_rota 5 (codes "t") (codes "t") 1 false chegada (λ e. cc) refl refl
      (λ e. cc) refl refl (omega arith) chegada-IsEntregue refl

-- Two failures of an address with a limit of two, a sweep, and a success of another address, the latest first.
abbrev historia_ip : List (ℕ × PedidoIp)
historia_ip =
    (9, sucesso (codes "b"))
    ∷ (7, limpeza)
    ∷ (5, consulta (codes "a"))
    ∷ (4, falha (codes "a"))
    ∷ (2, falha (codes "a"))
    ∷ []

esta_bloqueado-registro_example :
    (esta_bloqueado texto_discrete 10
      (depois_de texto_discrete (pos 2) 20 historia_ip)
      (codes "a")).1
    ≡ bloqueado_por 10 20 (registro texto_discrete (pos 2) 20 (codes "a") historia_ip).bloqueio
esta_bloqueado-registro_example =
    esta_bloqueado-registro texto_discrete (pos 2) 20 10 (codes "a") historia_ip (omega arith)

abbrev csrf_cfg_teste : CsrfConfig
csrf_cfg_teste = record { metodos_protegidos = []; ignorar_se = none }

-- An encoding that writes one letter for each byte.
abbrev letras_teste : List ℕ → Texto
letras_teste bs = map (λ b. b'k') bs

letras_sem_espacos : (bs : List ℕ) → all (λ c. not (is_space c)) (letras_teste bs) ≡ true
unfolding is_space
letras_sem_espacos [] = refl
letras_sem_espacos (b ∷ bs) = letras_sem_espacos bs

letras_teste-IsAlfabeto : IsAlfabeto letras_teste
letras_teste-IsAlfabeto = record { sem_espacos = letras_sem_espacos; nao_vazio = λ b bs e. cc }

abbrev devolvida : Request
devolvida = record leitura_teste {
  method = codes "POST";
  header = λ nome. codes "kk";
  cookie = λ nome. some (codes "kk");
}

csrf_guard-csrf_token_handler_example :
    csrf_guard so_ascii csrf_cfg_teste served devolvida ≡ served devolvida
unfolding csrf_token_handler deelp_pkg.Seguranca.Csrf.Token.gerar_token
csrf_guard-csrf_token_handler_example =
    csrf_guard-csrf_token_handler so_ascii csrf_cfg_teste letras_teste true (some (1 ∷ 2 ∷ []))
      served devolvida letras_teste-IsAlfabeto (λ e. cc) refl refl

-- ===== src/Tests/Limites.antt =====
-- The limiter, the blocker, the publisher and the purge at concrete runs.
use deelp_pkg.Tests.{texto_discrete}
use deelp_pkg.Seguranca.RateLimiter.{allow}
use deelp_pkg.Seguranca.RateLimiter.Laws.{visita, varredura, cabe, depois_de, registro, Chamada}
use deelp_pkg.Seguranca.RateLimiter.History.{allow-registro}
use deelp_pkg.Seguranca.IpBlocker.{IpBlocker}
use deelp_pkg.Mensageria.Publisher.{
  Broker, Mensagem, enviado, aceita, novo_publisher, publicar, tentar, canal_locked, abrir,
  descartar, declarar_locked, retornada_locked, procurar,
}
use deelp_pkg.Mensageria.Publisher.Laws.{IsConfirmada, publicar-IsConfirmada}
use deelp_pkg.Prelude.{[], ◌∷◌, true, false, some, pos, refl, List, ℕ, ◌≡◌, arith}
use deelp_pkg.Texto.{codes}

abbrev chamadas_ip : List (ℕ × Chamada)
chamadas_ip = (7, visita (codes "b")) ∷ (6, varredura) ∷ (5, visita (codes "a")) ∷ []

allow-registro_example :
    (allow texto_discrete 8 (depois_de texto_discrete (pos 1) 10 chamadas_ip) (codes "a")).1
    ≡ cabe (pos 1) 10 8 (registro texto_discrete (pos 1) 10 (codes "a") chamadas_ip)
allow-registro_example =
    allow-registro texto_discrete (pos 1) 10 8 (codes "a") chamadas_ip
      (omega arith, (omega arith, (omega arith, tt)))

abbrev blocker_teste : IpBlocker
blocker_teste = record {
  max_tentativas = pos 1;
  duracao_bloqueio = 10;
  bloqueios = [];
  falhas = [];
}

-- A broker that accepts everything.
abbrev broker_teste : Broker ℕ
broker_teste = record {
  channel = λ b. (b, some 0);
  confirm = λ b c. (b, true);
  close_canal = λ b c. (b, true);
  is_closed = λ b c. false;
  exchange_declare = λ b c nome. (b, true);
  publish = λ b c m. (b, enviado 4);
  wait = λ b id. (b, aceita);
  retornos = λ b c. [];
  consumir = λ b c n. b;
}

abbrev mensagem_teste : Mensagem
mensagem_teste = record {
  exchange = codes "x";
  chave_roteamento = codes "k";
  message_id = codes "i";
  permitir_sem_rota = false;
}

publicar-IsConfirmada_example :
    IsConfirmada broker_teste novo_publisher mensagem_teste
      (publicar broker_teste 0 novo_publisher mensagem_teste).0
unfolding publicar tentar canal_locked abrir descartar declarar_locked retornada_locked procurar
publicar-IsConfirmada_example =
    publicar-IsConfirmada broker_teste 0 novo_publisher mensagem_teste refl

-- ===== src/Mensageria/Publisher.antt =====
-- mensageria/publisher.go: the publisher with confirmations. A channel and a confirmation are numbers;
-- `Broker` is the client library with its connection, whose state is `B`. Tracing, the message's
-- properties but its identifier, and the texts of wrapped errors are left out.
pub mod Laws
use deelp_pkg.Texto.{Texto, vazio, eq_texto}
use deelp_pkg.Prelude.{
  [], ◌∷◌, true, false, none, some, zero, suc, ◌&&◌, ◌||◌, Bool, List, Option, ℕ, any,
  if◌then◌else◌, not,
}

-- The result of a publication: its confirmation, or an error, which is `ErrClosed` or not.
pub data Envio : Type 0 where
  enviado : ℕ → Envio
  canal_caiu : Envio
  outro_erro : Envio

-- `WaitContext`: accepted or refused, or no answer in time.
pub data Confirmacao : Type 0 where
  aceita recusada incerta : Confirmacao

-- `Mensagem`; its identifier is filled in before.
pub record Mensagem : Type 0 where
  pub exchange : Texto
  pub chave_roteamento : Texto
  pub message_id : Texto
  pub permitir_sem_rota : Bool

-- The calls of the client library and of `ProvedorCanal`. `retornos` is what the channel's buffer of
-- returned messages holds, `consumir` takes that many of them; a Boolean result is false on an error.
pub record Broker (B : Type 0) : Type 0 where
  pub channel : B → B × Option ℕ
  pub confirm : B → ℕ → B × Bool
  pub close_canal : B → ℕ → B × Bool
  pub is_closed : B → ℕ → Bool
  pub exchange_declare : B → ℕ → Texto → B × Bool
  pub publish : B → ℕ → Mensagem → B × Envio
  pub wait : B → ℕ → B × Confirmacao
  pub retornos : B → ℕ → List Texto
  pub consumir : B → ℕ → ℕ → B

pub data ErroDePublicacao : Type 0 where
  nao_roteada recusa_do_broker confirmacao_incerta publisher_fechado : ErroDePublicacao
  abrir_canal ativar_confirmacoes declarar_exchange falha_ao_publicar : ErroDePublicacao

-- `Publisher`, without the time it waits; the channel of the returns is that of `canal`.
pub record Publisher : Type 0 where
  pub canal : Option ℕ
  pub fechado : Bool
  pub declarado : List Texto

-- `NovoPublisher`.
abbrev pub novo_publisher : Publisher
novo_publisher = record { canal = none; fechado = false; declarado = [] }

pub data Resultado (A : Type 0) : Type 0 where
  ok : A → Resultado A
  falhou : ErroDePublicacao → Resultado A

abbrev pub declarada : Texto → List Texto → Bool
declarada nome nomes = any (λ n. eq_texto n nome) nomes

-- `retornadaLocked`: whether the message is among the returned ones, and how many of these it takes.
unfoldable pub procurar : Texto → List Texto → ℕ × Bool
procurar message_id [] = (0, false)
procurar message_id (id ∷ ids) =
    let (n, achou) = procurar message_id ids in
    if eq_texto id message_id then (1, true) else (suc n, achou)

module _ {B : Type 0} (k : Broker B) where
  -- `descartarLocked`.
  unfoldable pub descartar : B → Publisher → B × Publisher
  descartar b p = (
    elim p.canal [ none ↦ b | some c ↦ (k.close_canal b c).0 ],
    record p { canal = none; declarado = [] },
  )

  -- The end of `canalLocked`: a new channel with confirmations.
  abbrev pub confirmar : Publisher → ℕ → B × Bool → B × (Publisher × Resultado ℕ)
  confirmar p c (b, true) = (b, (record p { canal = some c }, ok c))
  confirmar p c (b, false) = ((k.close_canal b c).0, (p, falhou ativar_confirmacoes))

  abbrev pub com_canal_novo : Publisher → B × Option ℕ → B × (Publisher × Resultado ℕ)
  com_canal_novo p (b, none) = (b, (p, falhou abrir_canal))
  com_canal_novo p (b, some c) = confirmar p c (k.confirm b c)

  unfoldable pub abrir : B → Publisher → B × (Publisher × Resultado ℕ)
  abrir b p = let (b', p') = descartar b p in com_canal_novo p' (k.channel b')

  -- `canalLocked`.
  unfoldable pub canal_locked : B → Publisher → B × (Publisher × Resultado ℕ)
  canal_locked b p = if p.fechado then (b, (p, falhou publisher_fechado)) else elim p.canal [
    | none ↦ abrir b p
    | some c ↦ if k.is_closed b c then abrir b p else (b, (p, ok c))
  ]

  -- `declararLocked`.
  abbrev pub conforme_declaracao :
      Publisher → Texto → B × Bool → B × (Publisher × Resultado (Unit {0}))
  conforme_declaracao p nome (b, true) = (b, (record p { declarado = nome ∷ p.declarado }, ok tt))
  conforme_declaracao p nome (b, false) =
      let (b', p') = descartar b p in (b', (p', falhou declarar_exchange))

  unfoldable pub declarar_locked :
      B → Publisher → ℕ → Texto → B × (Publisher × Resultado (Unit {0}))
  declarar_locked b p c nome =
      if vazio nome || declarada nome p.declarado
      then (b, (p, ok tt))
      else conforme_declaracao p nome (k.exchange_declare b c nome)

  -- `DeclararExchange`.
  unfoldable pub declarar_exchange_publisher :
      B → Publisher → Texto → B × (Publisher × Resultado (Unit {0}))
  declarar_exchange_publisher b p nome =
      let (b', (p', r)) = canal_locked b p in
      elim r [ falhou e ↦ (b', (p', falhou e)) | ok c ↦ declarar_locked b' p' c nome ]

  -- The loop of `enviarLocked`, with the attempts that are left; the confirmation is of the channel `c`.
  abbrev pub Tentativa : Type 0
  Tentativa = B × (Publisher × Resultado (ℕ × ℕ))

  abbrev pub conforme_envio : (B → Publisher → Tentativa) → Publisher → ℕ → B × Envio → Tentativa
  conforme_envio de_novo p c (b, enviado id) = (b, (p, ok (c, id)))
  conforme_envio de_novo p c (b, canal_caiu) = let (b', p') = descartar b p in de_novo b' p'
  conforme_envio de_novo p c (b, outro_erro) =
      let (b', p') = descartar b p in (b', (p', falhou falha_ao_publicar))

  abbrev pub com_exchange :
      (B → Publisher → Tentativa)
      → Mensagem
      → ℕ
      → B × (Publisher × Resultado (Unit {0}))
      → Tentativa
  com_exchange de_novo m c (b, (p, falhou e)) = de_novo b p
  com_exchange de_novo m c (b, (p, ok _)) = conforme_envio de_novo p c (k.publish b c m)

  abbrev pub com_canal :
      (B → Publisher → Tentativa) → Mensagem → B × (Publisher × Resultado ℕ) → Tentativa
  com_canal de_novo m (b, (p, falhou e)) = (b, (p, falhou e))
  com_canal de_novo m (b, (p, ok c)) = com_exchange de_novo m c (declarar_locked b p c m.exchange)

  unfoldable pub tentar : ℕ → Mensagem → B → Publisher → Tentativa
  tentar zero m b p = (b, (p, falhou falha_ao_publicar))
  tentar (suc n) m b p = com_canal (tentar n m) m (canal_locked b p)

  -- `enviarLocked`.
  abbrev pub enviar_locked : Mensagem → B → Publisher → Tentativa
  enviar_locked = tentar 2

  unfoldable pub retornada_locked : B → ℕ → Texto → B × Bool
  retornada_locked b c message_id =
      let (n, achou) = procurar message_id (k.retornos b c) in (k.consumir b c n, achou)

  abbrev pub conforme_confirmacao :
      Publisher → ℕ → Mensagem → B × Confirmacao → B × (Publisher × Resultado (Unit {0}))
  conforme_confirmacao p c m (b, incerta) =
      let (b', p') = descartar b p in (b', (p', falhou confirmacao_incerta))
  conforme_confirmacao p c m (b, recusada) = (b, (p, falhou recusa_do_broker))
  conforme_confirmacao p c m (b, aceita) =
      let (b', voltou) = retornada_locked b c m.message_id in
      (b', (p, if voltou && not m.permitir_sem_rota then falhou nao_roteada else ok tt))

  abbrev pub com_confirmacao : Mensagem → Tentativa → B × (Publisher × Resultado (Unit {0}))
  com_confirmacao m (b, (p, falhou e)) = (b, (p, falhou e))
  com_confirmacao m (b, (p, ok (c, id))) = conforme_confirmacao p c m (k.wait b id)

  -- `Publicar`, after the message is prepared.
  unfoldable pub publicar : B → Publisher → Mensagem → B × (Publisher × Resultado (Unit {0}))
  publicar b p m = com_confirmacao m (enviar_locked m b p)

  -- `Close`: whether the channel closed without an error.
  unfoldable pub close : B → Publisher → B × (Publisher × Bool)
  close b p = if p.fechado then (b, (p, true)) else elim p.canal [
    | none ↦ (b, (record p { fechado = true; canal = none }, true))
    | some c ↦
        let (b', fechou) = k.close_canal b c in
        if k.is_closed b c
        then (b, (record p { fechado = true; canal = none }, true))
        else (b', (record p { fechado = true; canal = none }, fechou))
  ]

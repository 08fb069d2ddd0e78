-- ===== src/Mensageria/Publisher/Laws.antt =====
-- `Publicar` of mensageria/publisher.go: what a reported success means.
use deelp_pkg.Mensageria.Publisher.{
  Broker, Publisher, Mensagem, Resultado, ok, falhou, Envio, enviado, canal_caiu, outro_erro,
  Confirmacao, aceita, recusada, incerta, declarada, canal_locked, declarar_locked, tentar,
  procurar, retornada_locked, confirmar, com_canal_novo, abrir, descartar, conforme_confirmacao,
  publicar, ErroDePublicacao, com_canal, com_confirmacao, com_exchange, conforme_envio,
  conforme_declaracao, nao_roteada,
}
use deelp_pkg.Prelude.{
  [], ◌∷◌, true, inl, inr, refl, any, ℕ, ◌≡◌, ◌⊎◌, List, Bool-cases, arith, zero, suc, false, Bool,
  ◌&&◌, if◌then◌else◌, sym, not, ◌∙◌, some, none, Option, ap, Option-cases,
}
use deelp_pkg.Texto.{vazio, Texto, eq_texto}

Resultado-cases :
    {A : Type 0} (r : Resultado A)
    → ((a : A) × (r ≡ ok a)) ⊎ ((e : ErroDePublicacao) × (r ≡ falhou e))
Resultado-cases (ok a) = inl (a, refl)
Resultado-cases (falhou e) = inr (e, refl)

procurar-any :
    (message_id : Texto) (ids : List Texto)
    → (procurar message_id ids).1 ≡ any (λ id. eq_texto id message_id) ids
unfolding procurar
procurar-any message_id [] = refl
procurar-any message_id (id ∷ ids) = elim (Bool-cases (eq_texto id message_id)) [
  | inl e ↦ rw e refl
  | inr e ↦ rw e (procurar-any message_id ids)
]

sem_rota :
    (voltou permitir : Bool)
    → (if voltou && not permitir then falhou nao_roteada else ok tt) ≡ ok (tt {0})
    → (permitir ≡ true) ⊎ (voltou ≡ false)
sem_rota voltou true h = inl refl
sem_rota false false h = inr refl
sem_rota true false h = absurd (ground arith)

module _ {B : Type 0} (k : Broker B) (p0 : Publisher) (m : Mensagem) where
  -- For a publication on the channel `c` from the state `b`: the message names no exchange; or the declaration
  -- of its exchange on that channel succeeded, and left that state; or the publisher `p0` that was called had
  -- that channel, and the exchange among those declared on it.
  abbrev pub ExchangeDeclarada : ℕ → B → Type 0
  ExchangeDeclarada c b =
      (vazio m.exchange ≡ true)
      ⊎ (((b0 : B) × (k.exchange_declare b0 c m.exchange ≡ (b, true)))
          ⊎ ((p0.canal ≡ some c) × (declarada m.exchange p0.declarado ≡ true)))

  abbrev pub IsPublicada : ℕ → ℕ → B → Type 0
  IsPublicada c id b' = (b : B) × (k.publish b c m ≡ (b', enviado id)) × ExchangeDeclarada c b

  Publicou : B × (Publisher × Resultado (ℕ × ℕ)) → Type 0
  Publicou (b, (p, falhou e)) = Unit
  Publicou (b, (p, ok (c, id))) = IsPublicada c id b

  -- What the record of a publisher says is of `p0`, or nothing.
  abbrev Herda : Publisher → Type 0
  Herda p = ((p.canal ≡ p0.canal) × (p.declarado ≡ p0.declarado)) ⊎ (p.declarado ≡ [])

  abbrev TemCanal : B × (Publisher × Resultado ℕ) → Type 0
  TemCanal (b, (p, falhou e)) = Unit
  TemCanal (b, (p, ok c)) = Herda p × (p.canal ≡ some c)

  abbrev TemExchange : ℕ → B × (Publisher × Resultado (Unit {0})) → Type 0
  TemExchange c (b, (p, falhou e)) = Herda p
  TemExchange c (b, (p, ok _)) = ExchangeDeclarada c b

  confirmar-TemCanal :
      (p : Publisher) (c : ℕ) (x : B × Bool) → p.declarado ≡ [] → TemCanal (confirmar k p c x)
  confirmar-TemCanal p c (b, true) h = (inr h, refl)
  confirmar-TemCanal p c (b, false) h = tt

  com_canal_novo-TemCanal :
      (p : Publisher) (x : B × Option ℕ) → p.declarado ≡ [] → TemCanal (com_canal_novo k p x)
  com_canal_novo-TemCanal p (b, none) h = tt
  com_canal_novo-TemCanal p (b, some c) h = confirmar-TemCanal p c (k.confirm b c) h

  abrir-TemCanal : (b : B) (p : Publisher) → TemCanal (abrir k b p)
  unfolding abrir descartar
  abrir-TemCanal b p = com_canal_novo-TemCanal _ _ refl

  canal_locked-TemCanal : (b : B) (p : Publisher) → Herda p → TemCanal (canal_locked k b p)
  unfolding canal_locked
  canal_locked-TemCanal b p h = elim (Bool-cases p.fechado) [
    | inl f ↦ rw f tt
    | inr f ↦ elim (Option-cases p.canal) [
      | inl e ↦ rw (f, e) (abrir-TemCanal b p)
      | inr (c, e) ↦ elim (Bool-cases (k.is_closed b c)) [
        | inl a ↦ rw (f, e, a) (abrir-TemCanal b p)
        | inr a ↦ rw (f, e, a) (h, e)
      ]
    ]
  ]

  conforme_declaracao-TemExchange :
      (b0 : B) (p : Publisher) (c : ℕ) (x : B × Bool)
      → k.exchange_declare b0 c m.exchange ≡ x
      → TemExchange c (conforme_declaracao k p m.exchange x)
  unfolding descartar
  conforme_declaracao-TemExchange b0 p c (b, true) e = inr (inl (b0, e))
  conforme_declaracao-TemExchange b0 p c (b, false) e = inr refl

  ja_declarada :
      (p : Publisher) (c : ℕ) (b : B)
      → Herda p
      → p.canal ≡ some c
      → declarada m.exchange p.declarado ≡ true
      → ExchangeDeclarada c b
  ja_declarada p c b (inl (e, f)) g d = inr (inr (sym e ∙ g, ap (declarada m.exchange) (sym f) ∙ d))
  ja_declarada p c b (inr f) g d = absurd (ground (arith, ap (declarada m.exchange) (sym f) ∙ d))

  declarar_locked-TemExchange :
      (b : B) (p : Publisher) (c : ℕ)
      → Herda p
      → p.canal ≡ some c
      → TemExchange c (declarar_locked k b p c m.exchange)
  unfolding declarar_locked
  declarar_locked-TemExchange b p c h g = elim (Bool-cases (vazio m.exchange)) [
    | inl v ↦ rw v (inl v)
    | inr v ↦ elim (Bool-cases (declarada m.exchange p.declarado)) [
      | inl d ↦ rw (v, d) (ja_declarada p c b h g d)
      | inr d ↦
          rw (v, d) (conforme_declaracao-TemExchange b p c (k.exchange_declare b c m.exchange) refl)
    ]
  ]

  module _ (de_novo : B → Publisher → B × (Publisher × Resultado (ℕ × ℕ)))
      (h : (b : B) (p : Publisher) → Herda p → Publicou (de_novo b p)) where
    conforme_envio-Publicou :
        (b0 : B) (p : Publisher) (c : ℕ) (x : B × Envio)
        → k.publish b0 c m ≡ x
        → ExchangeDeclarada c b0
        → Publicou (conforme_envio k de_novo p c x)
    unfolding Publicou descartar
    conforme_envio-Publicou b0 p c (b, enviado id) e d = (b0, e, d)
    conforme_envio-Publicou b0 p c (b, canal_caiu) e d = h _ _ (inr refl)
    conforme_envio-Publicou b0 p c (b, outro_erro) e d = tt

    com_exchange-Publicou :
        (c : ℕ) (x : B × (Publisher × Resultado (Unit {0})))
        → TemExchange c x
        → Publicou (com_exchange k de_novo m c x)
    com_exchange-Publicou c (b, (p, falhou e)) d = h b p d
    com_exchange-Publicou c (b, (p, ok _)) d =
        conforme_envio-Publicou b p c (k.publish b c m) refl d

    com_canal-Publicou :
        (x : B × (Publisher × Resultado ℕ)) → TemCanal x → Publicou (com_canal k de_novo m x)
    unfolding Publicou
    com_canal-Publicou (b, (p, falhou e)) d = tt
    com_canal-Publicou (b, (p, ok c)) (d, g) =
        com_exchange-Publicou c _ (declarar_locked-TemExchange b p c d g)

  tentar-Publicou : (n : ℕ) (b : B) (p : Publisher) → Herda p → Publicou (tentar k n m b p)
  unfolding tentar Publicou
  tentar-Publicou zero b p h = tt
  tentar-Publicou (suc n) b p h =
      com_canal-Publicou (tentar k n m) (tentar-Publicou n) (canal_locked k b p)
        (canal_locked-TemCanal b p h)

  -- The message was published, its confirmation says accepted, and it did not come back, unless it may go
  -- without a route; `fim` is the broker after the returned messages were read.
  abbrev pub IsConfirmada : B → Type 0
  IsConfirmada fim =
      (c : ℕ) × (id : ℕ) × (b : B) × (b' : B) × (fim ≡ (retornada_locked k b' c m.message_id).0)
      × IsPublicada c id b
      × (k.wait b id ≡ (b', aceita))
      × ((m.permitir_sem_rota ≡ true)
          ⊎ (any (λ i. eq_texto i m.message_id) (k.retornos b' c) ≡ false))

  com_confirmacao-IsConfirmada :
      (x : B × (Publisher × Resultado (ℕ × ℕ)))
      → Publicou x
      → (com_confirmacao k m x).1.1 ≡ ok tt
      → IsConfirmada (com_confirmacao k m x).0
  unfolding Publicou retornada_locked
  com_confirmacao-IsConfirmada (b, (p, falhou e)) d h = absurd (ground arith)
  com_confirmacao-IsConfirmada (b, (p, ok (c, id))) d h = conforme (k.wait b id) refl h
    where
      rota :
          (b' : B)
          → (conforme_confirmacao k p c m (b', aceita)).1.1 ≡ ok tt
          → (m.permitir_sem_rota ≡ true)
            ⊎ (any (λ i. eq_texto i m.message_id) (k.retornos b' c) ≡ false)
      rota b' g =
          elim (sem_rota (procurar m.message_id (k.retornos b' c)).1 m.permitir_sem_rota g) [
            | inl e ↦ inl e
            | inr f ↦ inr (sym (procurar-any m.message_id (k.retornos b' c)) ∙ f)
          ]

      conforme :
          (y : B × Confirmacao)
          → k.wait b id ≡ y
          → (conforme_confirmacao k p c m y).1.1 ≡ ok tt
          → IsConfirmada (conforme_confirmacao k p c m y).0
      conforme (b', incerta) e g = absurd (ground arith)
      conforme (b', recusada) e g = absurd (ground arith)
      conforme (b', aceita) e g = (c, id, b, b', refl, d, e, rota b' g)

-- `Publicar` reports success only if the message was published on a channel, its exchange, if it names one,
-- declared on that channel just before or recorded as declared on it by the publisher that was called, the broker
-- confirmed it, and either the messages returned on the channel by then do not hold it or it may go without a
-- route; the broker is left as reading them leaves it.
pub publicar-IsConfirmada :
    {B : Type 0} (k : Broker B) (b : B) (p : Publisher) (m : Mensagem)
    → (publicar k b p m).1.1 ≡ ok tt
    → IsConfirmada k p m (publicar k b p m).0
unfolding publicar
publicar-IsConfirmada k b p m h =
    com_confirmacao-IsConfirmada k p m (tentar k 2 m b p)
      (tentar-Publicou k p m 2 b p (inl (refl, refl))) h

-- ===== src/Mensageria/Declaracao.antt =====
-- mensageria/mensageria.go: `DeclararExchange` and `DeclararFila`. A connection is how it answers, a call what
-- it sends on its channel; the flags are durable, auto-deleted or exclusive, internal, and no-wait.
use deelp_pkg.Texto.{Texto, vazio, codes}
use deelp_pkg.Prelude.{[], ◌∷◌, true, false, none, some, Bool, List, Option, if◌then◌else◌}

-- The name in a queue is the one that the broker gives.
pub record Conexao : Type 0 where
  pub channel : Bool
  pub exchange_declare : Texto → Bool
  pub queue_declare : Texto → Option Texto
  pub queue_bind : Texto → Texto → Texto → Bool

pub record Flags : Type 0 where
  pub durable : Bool
  pub auto_deleted : Bool
  pub internal : Bool
  pub no_wait : Bool

abbrev pub duravel : Flags
duravel = record { durable = true; auto_deleted = false; internal = false; no_wait = false }

pub data ComandoAmqp : Type 0 where
  exchange_declare : Texto → Texto → Flags → ComandoAmqp
  queue_declare : Texto → Flags → ComandoAmqp
  queue_bind : Texto → Texto → Texto → ComandoAmqp
  close : ComandoAmqp

pub data ErroDeDeclaracao : Type 0 where
  sem_canal exchange_recusada fila_recusada bind_recusado : ErroDeDeclaracao

-- `DeclararExchange`: what is sent, and the error.
unfoldable pub declarar_exchange : Conexao → Texto → List ComandoAmqp × Option ErroDeDeclaracao
declarar_exchange conn nome =
    if conn.channel
    then (
      exchange_declare nome (codes "topic") duravel ∷ close ∷ [],
      if conn.exchange_declare nome then none else some exchange_recusada,
    )
    else ([], some sem_canal)

-- `DeclararFila`: what is sent, the queue, and the error.
pub data Declarada : Type 0 where
  fila : Texto → Declarada
  nao_declarada : ErroDeDeclaracao → Declarada

abbrev vinculada : Conexao → Texto → Texto → Texto → List ComandoAmqp × Declarada
vinculada conn exchange routing_key nome = if vazio exchange then (close ∷ [], fila nome) else (
  queue_bind nome routing_key exchange ∷ close ∷ [],
  if conn.queue_bind nome routing_key exchange then fila nome else nao_declarada bind_recusado,
)

unfoldable pub declarar_fila : Conexao → Texto → Texto → Texto → List ComandoAmqp × Declarada
declarar_fila conn nome exchange routing_key =
    if conn.channel
    then elim (conn.queue_declare nome) [
      | none ↦ (queue_declare nome duravel ∷ close ∷ [], nao_declarada fila_recusada)
      | some q ↦
          let resto = vinculada conn exchange routing_key q in
          (queue_declare nome duravel ∷ resto.0, resto.1)
    ]
    else ([], nao_declarada sem_canal)

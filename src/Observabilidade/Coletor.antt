-- ===== src/Observabilidade/Coletor.antt =====
-- observabilidade/coletor.go: the handler of export errors, and the wait for the collector.
pub mod Avisos
pub mod Encerramento
use deelp_pkg.Prelude.{
  [], ◌∷◌, false, none, some, List, Option, ℕ, Bool, if◌then◌else◌, ltb, ◌+◌, true, ◌≡◌,
}

abbrev pub intervalo_aviso_erro : ℕ
intervalo_aviso_erro = 300000000000

-- `errorHandlerLimitado`; no instant is the zero time.
pub record ErrorHandler : Type 0 where
  pub ultimo : Option ℕ
  pub suprimidos : ℕ

abbrev pub novo_handler : ErrorHandler
novo_handler = record { ultimo = none; suprimidos = 0 }

-- A warning: when it was written, and the number of errors that it says were suppressed.
pub record Aviso : Type 0 where
  pub quando : ℕ
  pub omitidos : ℕ

abbrev calado : Option ℕ → ℕ → Bool
calado none agora = false
calado (some t) agora = ltb agora (t + intervalo_aviso_erro)

-- `Handle`.
unfoldable pub handle : ℕ → ErrorHandler → ErrorHandler × Option Aviso
handle agora h =
    if calado h.ultimo agora then (record h { suprimidos = h.suprimidos + 1 }, none) else (
      record { ultimo = some agora; suprimidos = 0 },
      some (record { quando = agora; omitidos = h.suprimidos }),
    )

-- The errors of a process at their instants, the latest first: the handler after them, and what each of them
-- made it write.
unfoldable pub tratar : List ℕ → ErrorHandler × List (ℕ × Option Aviso)
tratar [] = (novo_handler, [])
tratar (t ∷ ts) = let (h, as_) = tratar ts in let (h', a) = handle t h in (h', (t, a) ∷ as_)

-- `aguardarColetor`: the goroutine that looks for the collector, the channel that ends it, and the providers
-- that it has put in place, if any; `D` is their shutdown.
pub data Fase : Type 0 where
  sondando terminada : Fase

pub record Espera (D : Type 0) : Type 0 where
  pub fase : Fase
  pub parar : Bool
  pub desligar : Option D

abbrev pub inicial : {D : Type 0} → Espera D
inicial = record { fase = sondando; parar = false; desligar = none }

-- A step of the goroutine, by what its select takes and the tick finds, or the first call of the shutdown,
-- which closes the channel. `responde` is whether the collector ever answers a tick.
pub data Step {D : Type 0} (responde : Bool) : Espera D → Espera D → Type 0 where
  parou :
      (s : Espera D)
      → s.fase ≡ sondando
      → s.parar ≡ true
      → Step responde s (record s { fase = terminada })
  inacessivel : (s : Espera D) → s.fase ≡ sondando → Step responde s s
  falhou :
      (s : Espera D)
      → responde ≡ true
      → s.fase ≡ sondando
      → Step responde s (record s { fase = terminada })
  instalou :
      (s : Espera D) (d : D)
      → responde ≡ true
      → s.fase ≡ sondando
      → Step responde s (record s { fase = terminada; desligar = some d })
  fechou : (s : Espera D) → Step responde s (record s { parar = true })

-- What the shutdown gives: it waits for the end of the goroutine, then shuts down what is in place.
unfoldable pub ao_desligar : {D : Type 0} → Espera D → Option (Option D)
ao_desligar s = elim s.fase [ sondando ↦ none | terminada ↦ some s.desligar ]

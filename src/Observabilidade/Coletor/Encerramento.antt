-- ===== src/Observabilidade/Coletor/Encerramento.antt =====
-- What the shutdown of the wait for the collector leaves running.
use deelp_pkg.Observabilidade.Coletor.{Espera, Fase, Step, sondando, terminada}
use deelp_pkg.Prelude.{true, false, Bool}

-- Runs of the steps.
pub data Run {D : Type 0} (responde : Bool) : Espera D → Espera D → Type 0 where
  fim : (s : Espera D) → Run responde s s
  passo : {s t u : Espera D} → Step responde s t → Run responde t u → Run responde s u

abbrev eh_terminada : Fase → Bool
eh_terminada sondando = false
eh_terminada terminada = true

-- ===== src/Observabilidade/Coletor/Avisos.antt =====
-- When the handler of export errors writes, and what it says was suppressed.
use deelp_pkg.Observabilidade.Coletor.{Aviso, calado, handle, tratar, intervalo_aviso_erro}
use deelp_pkg.Prelude.{
  [], ◌∷◌, true, false, some, none, inl, inr, List, Option, ℕ, suc, ◌+◌, ◌≡◌, arith, ◌≤◌, ◌<◌,
  Bool-cases, refl,
}
use mathlib.Core.Path.{subst}

-- What was written on the errors before, the latest first: the instant of the last warning, and how many errors
-- came after it without one.
abbrev pub ultimo_aviso : List (ℕ × Option Aviso) → Option ℕ
ultimo_aviso [] = none
ultimo_aviso ((t, some a) ∷ as_) = some t
ultimo_aviso ((t, none) ∷ as_) = ultimo_aviso as_

abbrev pub sem_aviso : List (ℕ × Option Aviso) → ℕ
sem_aviso [] = 0
sem_aviso ((t, some a) ∷ as_) = 0
sem_aviso ((t, none) ∷ as_) = suc (sem_aviso as_)

abbrev pub Espacado : Option ℕ → ℕ → Type 0
Espacado none t = Unit
Espacado (some u) t = u + intervalo_aviso_erro ≤ t

abbrev pub Recente : Option ℕ → ℕ → Type 0
Recente none t = ⊥
Recente (some u) t = t < u + intervalo_aviso_erro

-- What is right to write on an error at an instant, after the others.
abbrev pub Conforme : List (ℕ × Option Aviso) → ℕ → Option Aviso → Type 0
Conforme as_ t none = Recente (ultimo_aviso as_) t
Conforme as_ t (some a) =
    (a.quando ≡ t) × (a.omitidos ≡ sem_aviso as_) × Espacado (ultimo_aviso as_) t

calado-Recente : (o : Option ℕ) (t : ℕ) → calado o t ≡ true → Recente o t
calado-Recente none t h = absurd (ground (arith, h))
calado-Recente (some u) t h = ground (arith, h)

calado-Espacado : (o : Option ℕ) (t : ℕ) → calado o t ≡ false → Espacado o t
calado-Espacado none t h = tt
calado-Espacado (some u) t h = ground (arith, h)

-- The two fields of the handler are what its warnings say of them.
tratar-Fiel :
    (ts : List ℕ)
    → ((tratar ts).0.ultimo ≡ ultimo_aviso (tratar ts).1)
      × ((tratar ts).0.suprimidos ≡ sem_aviso (tratar ts).1)
unfolding tratar handle
tratar-Fiel [] = (refl, refl)
tratar-Fiel (t ∷ ts) =
    let (a, b) = tratar-Fiel ts in
    elim (Bool-cases (calado (tratar ts).0.ultimo t)) [
      | inl e ↦ rw (tratar, handle, e) (a, omega (arith, b))
      | inr e ↦ rw (tratar, handle, e) (refl, refl)
    ]

-- After any errors at whatever instants, the handler writes a warning on the next one exactly if there was no
-- warning before or the last was five minutes ago or more, and the warning has the instant of that error and
-- the number of the errors since the last warning, which had none.
pub handle-Conforme : (ts : List ℕ) (t : ℕ) → Conforme (tratar ts).1 t (handle t (tratar ts).0).1
unfolding handle
handle-Conforme ts t =
    let (a, b) = tratar-Fiel ts in
    elim (Bool-cases (calado (tratar ts).0.ultimo t)) [
      | inl e ↦
          rw (handle, e) (subst (λ o. Recente o t) a (calado-Recente (tratar ts).0.ultimo t e))
      | inr e ↦
          rw (handle, e)
            (refl, b, subst (λ o. Espacado o t) a (calado-Espacado (tratar ts).0.ultimo t e))
    ]

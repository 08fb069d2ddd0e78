-- ===== src/Observabilidade/Etapa/Laws.antt =====
-- observabilidade/tracing.go: which message of an error a span keeps.
use deelp_pkg.Texto.{Texto, eq_texto, codes}
use deelp_pkg.Texto.Laws.{eq_texto→eq}
use deelp_pkg.Observabilidade.Etapa.{
  erro_truncado, erro_de_mensagem, finalizar_span_err, limite_mensagem_span,
}
use deelp_pkg.Prelude.{
  [], ◌∷◌, false, some, ℕ, ◌≡◌, ◌≤◌, ◌+◌, take, length, arith, Bool-cases, length-append, refl, suc,
  zero, ltb, inl, inr, sym,
}
use mathlib.Core.Path.{subst}

length-take-le : (n : ℕ) (s : Texto) → length (take n s) ≤ n
length-take-le zero s = omega arith
length-take-le (suc n) [] = omega arith
length-take-le (suc n) (c ∷ s) = omega (arith, length-take-le n s)

ltb-false : (a b : ℕ) → ltb a b ≡ false → b ≤ a
ltb-false a b h = ground arith

-- A truncated message has at most two hundred code points and the ellipsis.
length-erro_truncado : (m : Texto) → length (erro_truncado m) ≤ limite_mensagem_span + 1
unfolding erro_truncado
length-erro_truncado m = elim (Bool-cases (ltb limite_mensagem_span (length m))) [
  | inl h ↦ rw h (
      omega (
        arith,
        length-append (take limite_mensagem_span m) (codes "…"),
        length-take-le limite_mensagem_span m,
      ))
  | inr h ↦ rw h (omega (arith, ltb-false (limite_mensagem_span) (length m) h))
]

erro_truncado_curto :
    (m : Texto) → ltb limite_mensagem_span (length m) ≡ false → erro_truncado m ≡ m
unfolding erro_truncado
erro_truncado_curto m h = rw h refl

-- `FinalizarSpanErr` keeps of every error what `ErroDeMensagem` keeps, its redacted text, of at most two hundred
-- code points and an ellipsis: where it keeps the error as it is, its text was short and the redaction leaves it
-- unchanged.
pub finalizar_span_err-erro_de_mensagem :
    (redigir : Texto → Texto) (msg : Texto)
    → (finalizar_span_err redigir (some msg) ≡ some (erro_de_mensagem redigir msg))
      × (length (erro_de_mensagem redigir msg) ≤ limite_mensagem_span + 1)
unfolding finalizar_span_err erro_de_mensagem
finalizar_span_err-erro_de_mensagem redigir msg = (
  elim (Bool-cases (eq_texto (redigir msg) msg)) [
    | inl a ↦ elim (Bool-cases (ltb limite_mensagem_span (length msg))) [
      | inl b ↦ rw (a, b) refl
      | inr b ↦
          rw (a, b)
            (subst (λ t. some msg ≡ some (erro_truncado t)) (sym (eq_texto→eq (redigir msg) msg a))
              (rw (erro_truncado_curto msg b) refl))
    ]
    | inr a ↦ rw a refl
  ],
  length-erro_truncado (redigir msg),
)

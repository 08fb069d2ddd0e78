-- ===== src/Mensageria/Gerenciador/Laws.antt =====
-- mensageria/reconexao.go: what a manager keeps over any sequence of events.
use deelp_pkg.Mensageria.Gerenciador.{
  Biblioteca, Estado, EventoDeConexao, SemVazamento, abrir, fechar, fechar_se_aberta, conectar,
  novo_gerenciador, channel, disponivel, ao_evento, ao_longo, queda, tentativa, registro_de,
  encerramento,
}
use deelp_pkg.Prelude.{
  [], ◌∷◌, true, false, none, some, List, Option, ℕ, ◌≡◌, ◌<◌, if◌then◌else◌, arith, refl, ◌⊎◌, inl,
  inr, ◌↔◌, some_inj, sym, none_ne_some,
}
use mathlib.Core.Path.{subst}

fechar-aberta :
    (n : ℕ) (b : Biblioteca) (c : ℕ)
    → (fechar n b).aberta c ≡ true
    → (b.aberta c ≡ true) × ¬ (c ≡ n)
fechar-aberta n b c h = grind arith

fechar_se_aberta-aberta :
    (o : Option ℕ) (b : Biblioteca) (c : ℕ)
    → (fechar_se_aberta o b).aberta c ≡ true
    → (b.aberta c ≡ true) × ¬ (o ≡ some c)
fechar_se_aberta-aberta none b c h = (h, λ e. cc)
fechar_se_aberta-aberta (some n) b c h = grind arith

fechar_se_aberta-proxima :
    (o : Option ℕ) (b : Biblioteca) → (fechar_se_aberta o b).proxima ≡ b.proxima
fechar_se_aberta-proxima none b = refl
fechar_se_aberta-proxima (some n) b = ground arith

abrir-aberta :
    (b : Biblioteca) (c : ℕ) → (abrir b).aberta c ≡ true → (b.aberta c ≡ true) ⊎ (c ≡ b.proxima)
abrir-aberta b c h = grind arith

-- The connection that `conectar` opens is the only one that can be open after it.
conectar-SemVazamento : {F : Type 0} (e : Estado F) → SemVazamento e → SemVazamento (conectar e)
unfolding conectar
conectar-SemVazamento e k = record {
  so_a_atual = λ c h.
      let f = fechar_se_aberta-aberta e.gerenciador.conn (abrir e.biblioteca) c h in
      elim (abrir-aberta e.biblioteca c f.0) [
        | inl velha ↦ absurd (f.1 (k.so_a_atual c velha))
        | inr nova ↦ cc
      ];
  numerada = λ c h.
      subst (λ p. c < p) (sym (fechar_se_aberta-proxima e.gerenciador.conn (abrir e.biblioteca)))
        (omega (arith, some_inj h));
}

ao_evento-SemVazamento :
    {F : Type 0} (e : Estado F) (v : EventoDeConexao F)
    → SemVazamento e
    → SemVazamento (ao_evento e v)
unfolding ao_evento
ao_evento-SemVazamento e (queda n) k = record {
  so_a_atual = λ c h. k.so_a_atual c (fechar-aberta n e.biblioteca c h).0;
  numerada = k.numerada;
}
ao_evento-SemVazamento e (tentativa false) k = k
ao_evento-SemVazamento e (tentativa true) k = conectar-SemVazamento e k
ao_evento-SemVazamento e (registro_de fn) k = record {
  so_a_atual = k.so_a_atual;
  numerada = k.numerada;
}
ao_evento-SemVazamento e encerramento k = record {
  so_a_atual =
      λ c h. k.so_a_atual c (fechar_se_aberta-aberta e.gerenciador.conn e.biblioteca c h).0;
  numerada = λ c h.
      subst (λ p. c < p) (sym (fechar_se_aberta-proxima e.gerenciador.conn e.biblioteca))
        (k.numerada c h);
}

ao_longo-SemVazamento :
    {F : Type 0} (e : Estado F) (vs : List (EventoDeConexao F))
    → SemVazamento e
    → SemVazamento (ao_longo e vs)
unfolding ao_longo
ao_longo-SemVazamento e [] k = k
ao_longo-SemVazamento e (v ∷ vs) k =
    ao_longo-SemVazamento (ao_evento e v) vs (ao_evento-SemVazamento e v k)

novo_gerenciador-SemVazamento :
    {F : Type 0} (b : Biblioteca) (e : Estado F)
    → ((c : ℕ) → b.aberta c ≡ false)
    → novo_gerenciador b true ≡ some e
    → SemVazamento e
unfolding novo_gerenciador
novo_gerenciador-SemVazamento b e h k = subst SemVazamento (some_inj k) (
    conectar-SemVazamento _ (record {
      so_a_atual = λ c a. absurd (grind (arith, h c));
      numerada = λ c a. absurd (none_ne_some a);
    }))

disponivel-aberta :
    (o : Option ℕ) (b : Biblioteca) (c : ℕ)
    → (b.aberta c ≡ true → o ≡ some c)
    → (b.aberta c ≡ true) ↔ ((if disponivel b o then o else none) ≡ some c)
disponivel-aberta none b c h = (λ a. h a, λ e. absurd (none_ne_some e))
disponivel-aberta (some n) b c h = (
  λ a.
      let e = some_inj (h a) in
      subst (λ q. (if b.aberta n then some n else none) ≡ some q) e (grind arith),
  λ e. grind arith,
)

-- From the manager of a process that had no connection, over any sequence of failures, reconnections,
-- registrations and closings: a connection that is open is the manager's, so that there is at most one, and it
-- is the one whose channel `Channel` opens.
pub ao_longo-channel :
    {F : Type 0} (b : Biblioteca) (e : Estado F) (vs : List (EventoDeConexao F)) (c : ℕ)
    → ((n : ℕ) → b.aberta n ≡ false)
    → novo_gerenciador b true ≡ some e
    → (ao_longo e vs).biblioteca.aberta c ≡ true ↔ channel (ao_longo e vs) ≡ some c
unfolding channel
ao_longo-channel b e vs c vazia h =
    let k = ao_longo-SemVazamento e vs (novo_gerenciador-SemVazamento b e vazia h) in
    disponivel-aberta (ao_longo e vs).gerenciador.conn (ao_longo e vs).biblioteca c (k.so_a_atual c)

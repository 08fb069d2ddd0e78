-- ===== src/TtlCache/Load/Invariant.antt =====
-- The invariant of the goroutines in `Load`, over the parts of the state that it speaks of.
use deelp_pkg.Mapa.Laws.{lookup-put_self, lookup-put_ne, lookup-remove_ne, lookup-remove-some}
use deelp_pkg.Prelude.{none, some, suc, inl, inr, Option, ℕ, ◌≡◌, arith, ◌<◌, ◌≤◌, ◌⊎◌}
use deelp_pkg.Mapa.{Mapa, lookup, remove, put}
use deelp_pkg.TtlCache.Load.{Phase, Answer, loading, publishing, ready, update, waiting, done}
use native.Mathlib.Decide.{ℕ_discrete}

-- The call that a goroutine leads: it runs the loader, or has its answer and has not closed the call.
abbrev pub held : {K V E : Type 0} → Phase K V E → Option ℕ
held (loading k n) = some n
held (publishing n r) = some n
held _ = none

pub record IsSound {K V E : Type 0} (dec : Discrete K) (inflight : Mapa K ℕ) (fresh : ℕ)
    (calls : ℕ → Option (Answer V E)) (threads : ℕ → Phase K V E) : Type 0 where
  pub leads : (i : ℕ) (k : K) (id : ℕ) → threads i ≡ loading k id → lookup dec k inflight ≡ some id
  pub single : (i j id : ℕ) → held (threads i) ≡ some id → held (threads j) ≡ some id → i ≡ j
  pub older : (i id : ℕ) → held (threads i) ≡ some id → id < fresh
  pub flight :
      (k : K) (id : ℕ) → lookup dec k inflight ≡ some id → (i : ℕ) × (threads i ≡ loading k id)
  pub unclosed : (i id : ℕ) → held (threads i) ≡ some id → calls id ≡ none
  pub unused : (id : ℕ) → fresh ≤ id → calls id ≡ none
  pub awaited :
      (i id : ℕ)
      → threads i ≡ waiting id
      → ((r : Answer V E) × (calls id ≡ some r)) ⊎ ((j : ℕ) × (held (threads j) ≡ some id))

module _ {K V E : Type 0} (dec : Discrete K) (inflight : Mapa K ℕ) (fresh : ℕ)
    (calls : ℕ → Option (Answer V E)) (threads : ℕ → Phase K V E)
    (s : IsSound dec inflight fresh calls threads) (i : ℕ) where
  -- A goroutine that leads nothing goes on to a phase in which it leads nothing.
  pub IsSound-idle :
      (f : Phase K V E)
      → held (threads i) ≡ none
      → held f ≡ none
      → ((id : ℕ) → f ≡ waiting id → (j : ℕ) × (held (threads j) ≡ some id))
      → IsSound dec inflight fresh calls (update threads i f)
  IsSound-idle f idle idle' led = record {
    leads = λ j k id h. ground (arith, s.leads j k id);
    single = λ a b id h g. ground (arith, s.single a b id);
    older = λ j id h. ground (arith, s.older j id);
    flight = λ k id h. let (j, p) = s.flight k id h in (j, ground arith);
    unclosed = λ j id h. ground (arith, s.unclosed j id);
    unused = s.unused;
    awaited = λ j id h. elim (ℕ_discrete i j) [
      | yes e ↦ let (a, p) = led id (ground arith) in inr (a, ground arith)
      | no n ↦ elim (s.awaited j id (ground arith)) [
        | inl c ↦ inl c
        | inr (a, p) ↦ inr (a, ground arith)
      ]
    ];
  }

  -- A goroutine becomes the leader of a new call.
  pub IsSound-lead :
      (key : K)
      → threads i ≡ ready
      → lookup dec key inflight ≡ none
      → IsSound dec
          (put dec key fresh inflight)
          (suc fresh)
          calls
          (update threads i (loading key fresh))
  IsSound-lead key idle free = record {
    leads = λ j k id h. elim (dec k key) [
      | yes e ↦ ground (arith, s.leads j k id, lookup-put_self dec key fresh inflight)
      | no n ↦ ground (arith, s.leads j k id, lookup-put_ne dec key k fresh inflight)
    ];
    single = λ a b id h g. ground (arith, s.single a b id, s.older a id, s.older b id);
    older = λ j id h. ground (arith, s.older j id);
    flight = λ k id h. elim (dec k key) [
      | yes e ↦ (i, ground (arith, lookup-put_self dec key fresh inflight))
      | no n ↦
          let (j, p) = s.flight k id (ground (arith, lookup-put_ne dec key k fresh inflight)) in
          (j, ground arith)
    ];
    unclosed = λ j id h. ground (arith, s.unclosed j id, s.unused id);
    unused = λ id h. s.unused id (omega arith);
    awaited = λ j id h. elim (s.awaited j id (ground arith)) [
      | inl c ↦ inl c
      | inr (a, p) ↦ inr (a, ground arith)
    ];
  }

  -- The leader takes the call off `inflight`.
  pub IsSound-settle :
      (key : K) (id : ℕ) (r : Answer V E)
      → threads i ≡ loading key id
      → IsSound dec (remove dec key inflight) fresh calls (update threads i (publishing id r))
  IsSound-settle key id r at = record {
    leads = λ j k n h. elim (dec k key) [
      | yes e ↦ absurd (ground (arith, s.leads j k n, s.leads i key id, s.single i j id))
      | no ne ↦ ground (arith, s.leads j k n, lookup-remove_ne dec key k inflight)
    ];
    single = λ a b n h g. ground (arith, s.single a b n);
    older = λ j n h. ground (arith, s.older j n);
    flight = λ k n h.
        let (was, ne) = lookup-remove-some dec key k n inflight h in
        let (j, p) = s.flight k n was in (j, ground arith);
    unclosed = λ j n h. ground (arith, s.unclosed j n);
    unused = s.unused;
    awaited = λ j n h. elim (s.awaited j n (ground arith)) [
      | inl c ↦ inl c
      | inr (a, p) ↦ inr (a, ground arith)
    ];
  }

  -- The leader closes the call.
  pub IsSound-publish :
      (id : ℕ) (r : Answer V E)
      → threads i ≡ publishing id r
      → IsSound dec inflight fresh (update calls id (some r)) (update threads i (done r))
  IsSound-publish id r at = record {
    leads = λ j k n h. ground (arith, s.leads j k n);
    single = λ a b n h g. ground (arith, s.single a b n);
    older = λ j n h. ground (arith, s.older j n);
    flight = λ k n h. let (j, p) = s.flight k n h in (j, ground arith);
    unclosed = λ j n h. ground (arith, s.unclosed j n, s.single i j id);
    unused = λ n h. ground (arith, s.unused n, s.older i id);
    awaited = λ j n h. elim (ℕ_discrete id n) [
      | yes e ↦ inl (r, ground arith)
      | no ne ↦ elim (s.awaited j n (ground arith)) [
        | inl (x, c) ↦ inl (x, ground arith)
        | inr (a, p) ↦ inr (a, ground arith)
      ]
    ];
  }

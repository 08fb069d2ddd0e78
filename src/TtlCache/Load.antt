-- ===== src/TtlCache/Load.antt =====
-- `Load` of internal/ttlcache/ttlcache.go: goroutines that call it for the same key share one run of
-- the loader. A goroutine is at a phase of the method; a step runs one section under the mutex, or
-- one of the actions outside it. `calls` holds what each `call` object was closed with.
pub mod Invariant
pub mod SingleFlight
use deelp_pkg.Mapa.{lookup, put, remove}
use deelp_pkg.TtlCache.{Cache, get_locked, set_locked}
use deelp_pkg.Prelude.{none, some, zero, suc, pos, [], Option, ℕ, ℤ, if◌then◌else◌, ◌≡◌, ltb_ℤ}
use mathlib.Core.Logic.{ite}
use native.Mathlib.Decide.{ℕ_discrete}

-- What the loader gave back: a value with its ttl and maybe an error, or a panic.
pub data Outcome (V E : Type 0) : Type 0 where
  returned : V → ℤ → Option E → Outcome V E
  panicked : Outcome V E

-- The pair `(V, error)` that `Load` returns.
abbrev pub Answer : Type 0 → Type 0 → Type 0
Answer V E = V × Option E

pub data Phase (K V E : Type 0) : Type 0 where
  ready : Phase K V E
  waiting : ℕ → Phase K V E
  loading : K → ℕ → Phase K V E
  publishing : ℕ → Answer V E → Phase K V E
  done : Answer V E → Phase K V E

pub record Shared (K V E : Type 0) : Type 0 where
  pub cache : Cache K V
  pub next : ℕ
  pub calls : ℕ → Option (Answer V E)

pub record System (K V E : Type 0) : Type 0 where
  pub shared : Shared K V E
  pub threads : ℕ → Phase K V E

abbrev pub update {ℓ} : {A : Type ℓ} → (ℕ → A) → ℕ → A → ℕ → A
update f i a j = ite (ℕ_discrete i j) a (f j)

-- The value and the error of the deferred function: `zero_value` is Go's zero value, and `aborted` is
-- `errLoadAborted`, which stands until the loader returns.
abbrev pub answer : {V E : Type 0} → V → E → Outcome V E → Answer V E
answer zero_value aborted (returned v ttl e) = (v, e)
answer zero_value aborted panicked = (zero_value, some aborted)

module _ {K V E : Type 0} (dec : Discrete K) where
  -- The first section under the mutex: a hit, a call to wait for, or a call to lead.
  unfoldable pub load_enter : ℕ → Shared K V E → K → Shared K V E × Phase K V E
  load_enter now s key =
      let (c, hit) = get_locked dec now s.cache key in
      elim hit [
        | some value ↦ (record s { cache = c }, done (value, none))
        | none ↦ elim (lookup dec key c.inflight) [
          | some pending ↦ (record s { cache = c }, waiting pending)
          | none ↦ (
            record s {
              cache = record c { inflight = put dec key s.next c.inflight };
              next = suc s.next;
            },
            loading key s.next,
          )
        ]
      ]

  -- The deferred section under the mutex: the call is taken off, and a good value with a positive ttl stored.
  unfoldable pub load_settle : ℕ → Cache K V → K → Outcome V E → Cache K V
  load_settle now c key outcome =
      let cleared = record c { inflight = remove dec key c.inflight } in
      elim outcome [
        | returned value ttl error ↦ elim error [
          | none ↦ if ltb_ℤ (pos 0) ttl then set_locked dec now cleared key value ttl else cleared
          | some e ↦ cleared
        ]
        | panicked ↦ cleared
      ]

  -- `Load` of one goroutine, where no other takes a step between its sections: a hit; a call in flight, which it
  -- joins, `junto` being what it gets of a call (its answer, or the error of its own context); or a run of the
  -- loader and the section after it.
  unfoldable pub load_alone :
      ℕ → ℕ → (ℕ → Answer V E) → Cache K V → K → V → E → Outcome V E → Cache K V × Answer V E
  load_alone now later junto c key zero_value aborted outcome =
      let (c', hit) = get_locked dec now c key in
      elim hit [
        | some value ↦ (c', (value, none))
        | none ↦ elim (lookup dec key c'.inflight) [
          | some pending ↦ (c', junto pending)
          | none ↦ (load_settle later c' key outcome, answer zero_value aborted outcome)
        ]
      ]

  -- One step of goroutine `i`. `zero_value`, `aborted` and `cancelled` are Go's zero value, `errLoadAborted`
  -- and `ctx.Err()`.
  pub data Step (zero_value : V) (aborted cancelled : E) (s : System K V E)
      : System K V E → Type 0 where
    enter :
        (i now : ℕ) (key : K)
        → s.threads i ≡ ready
        → Step zero_value aborted cancelled s (record {
          shared = (load_enter now s.shared key).0;
          threads = update s.threads i (load_enter now s.shared key).1;
        })
    settle :
        (i now id : ℕ) (key : K) (outcome : Outcome V E)
        → s.threads i ≡ loading key id
        → Step zero_value aborted cancelled s (record {
          shared = record s.shared { cache = load_settle now s.shared.cache key outcome };
          threads = update s.threads i (publishing id (answer zero_value aborted outcome));
        })
    publish :
        (i id : ℕ) (r : Answer V E)
        → s.threads i ≡ publishing id r
        → Step zero_value aborted cancelled s (record {
          shared = record s.shared { calls = update s.shared.calls id (some r) };
          threads = update s.threads i (done r);
        })
    wake :
        (i id : ℕ) (r : Answer V E)
        → s.threads i ≡ waiting id
        → s.shared.calls id ≡ some r
        → Step zero_value aborted cancelled s (record s { threads = update s.threads i (done r) })
    cancel :
        (i id : ℕ)
        → s.threads i ≡ waiting id
        → Step zero_value aborted cancelled s
            (record s { threads = update s.threads i (done (zero_value, some cancelled)) })

  pub data Reach (zero_value : V) (aborted cancelled : E) (s : System K V E)
      : System K V E → Type 0 where
    here : Reach zero_value aborted cancelled s s
    next :
        {t u : System K V E}
        → Reach zero_value aborted cancelled s t
        → Step zero_value aborted cancelled t u
        → Reach zero_value aborted cancelled s u

-- Before any call of `Load`: nothing in flight, every goroutine ready.
unfoldable pub start : {K V E : Type 0} → Cache K V → System K V E
start c = record {
  shared = record { cache = record c { inflight = [] }; next = 0; calls = λ id. none };
  threads = λ i. ready;
}

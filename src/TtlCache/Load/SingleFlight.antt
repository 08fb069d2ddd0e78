-- ===== src/TtlCache/Load/SingleFlight.antt =====
-- The goroutines in `Load` in every interleaving: loaders, answers and waiters.
use deelp_pkg.TtlCache.Load.Invariant.{
  IsSound, IsSound-idle, IsSound-lead, IsSound-settle, IsSound-publish, held,
}
use deelp_pkg.Prelude.{
  none, some, suc, inl, inr, refl, ℕ, Option-cases, ◌≡◌, arith, true, pos, ℤ, ltb_ℤ, ◌⊎◌,
  if◌then◌else◌, ltb,
}
use deelp_pkg.TtlCache.{get_locked, set_locked, Cache, add_duration}
use deelp_pkg.TtlCache.Load.{
  Shared, System, load_enter, load_settle, start, Phase, Outcome, done, ready, update, waiting,
  loading, Answer, Reach, Step, enter, next, returned, settle, answer, publish, wake, cancel,
  panicked,
}
use deelp_pkg.Mapa.{lookup, put, remove}
use deelp_pkg.TtlCache.Reads.{get_locked-set_locked}
use deelp_pkg.TtlCache.Load.{here, next}

abbrev pub Sound : {K V E : Type 0} → Discrete K → System K V E → Type 0
Sound dec s = IsSound dec s.shared.cache.inflight s.shared.next s.shared.calls s.threads

inflight-get_locked :
    {K V : Type 0} (dec : Discrete K) (now : ℕ) (c : Cache K V) (key : K)
    → (get_locked dec now c key).0.inflight ≡ c.inflight
unfolding get_locked
inflight-get_locked dec now c key = ground arith

module _ {K V E : Type 0} (dec : Discrete K) where
  inflight-load_settle :
      (now : ℕ) (c : Cache K V) (key : K) (o : Outcome V E)
      → (load_settle dec now c key o).inflight ≡ remove dec key c.inflight
  unfolding load_settle set_locked
  inflight-load_settle now c key o = ground arith

  -- The three ways that a call of `Load` begins.
  pub data Entered (s : Shared K V E) (key : K) (r : Shared K V E × Phase K V E) : Type 0 where
    hit :
        (c : Cache K V) (v : V)
        → c.inflight ≡ s.cache.inflight
        → r ≡ (record s { cache = c }, done (v, none))
        → Entered s key r
    joined :
        (c : Cache K V) (id : ℕ)
        → c.inflight ≡ s.cache.inflight
        → lookup dec key s.cache.inflight ≡ some id
        → r ≡ (record s { cache = c }, waiting id)
        → Entered s key r
    led :
        (c : Cache K V)
        → c.inflight ≡ put dec key s.next s.cache.inflight
        → lookup dec key s.cache.inflight ≡ none
        → r ≡ (record s { cache = c; next = suc s.next }, loading key s.next)
        → Entered s key r

  load_enter-Entered :
      (now : ℕ) (s : Shared K V E) (key : K) → Entered s key (load_enter dec now s key)
  unfolding load_enter
  load_enter-Entered now s key =
      let c = (get_locked dec now s.cache key).0 in
      let same = inflight-get_locked dec now s.cache key in
      elim (Option-cases (get_locked dec now s.cache key).1) [
        | inr (v, e) ↦ hit c v same (rw (e, load_enter))
        | inl e ↦ elim (Option-cases (lookup dec key c.inflight)) [
          | inr (id, f) ↦ joined c id same (ground arith) (rw (e, f, load_enter))
          | inl f ↦
              led (record c { inflight = put dec key s.next c.inflight }) (ground arith)
                (ground arith) (rw (e, f, load_enter))
        ]
      ]

  start-Sound : (c : Cache K V) → Sound dec (start {E = E} c)
  unfolding start lookup
  start-Sound c = record {
    leads = λ i k id h. ground arith;
    single = λ i j id h g. ground arith;
    older = λ i id h. ground arith;
    flight = λ k id h. absurd (ground arith);
    unclosed = λ i id h. refl;
    unused = λ id h. refl;
    awaited = λ i id h. absurd (ground arith);
  }

  module _ (zero_value : V) (aborted cancelled : E) where
    enter-Sound :
        (s : System K V E) (i : ℕ) (key : K) (r : Shared K V E × Phase K V E)
        → Sound dec s
        → s.threads i ≡ ready
        → Entered s.shared key r
        → Sound dec (record { shared = r.0; threads = update s.threads i r.1 })
    enter-Sound s i key r h e (hit c v same q) =
        rw (q, same)
          (IsSound-idle dec _ _ _ _ h i (done (v, none)) (ground arith) refl
            (λ id w. absurd (ground arith)))
    enter-Sound s i key r h e (joined c id same f q) =
        rw (q, same)
          (IsSound-idle dec _ _ _ _ h i (waiting id) (ground arith) refl
            (λ n w. let (j, p) = h.flight key id f in (j, ground arith)))
    enter-Sound s i key r h e (led c same f q) = rw (q, same) (IsSound-lead dec _ _ _ _ h i key e f)

    Step-Sound :
        {s t : System K V E} → Step dec zero_value aborted cancelled s t → Sound dec s → Sound dec t
    Step-Sound {s} (enter i now key e) h =
        enter-Sound s i key (load_enter dec now s.shared key) h e
          (load_enter-Entered now s.shared key)
    Step-Sound {s} (settle i now id key o e) h =
        rw (inflight-load_settle now s.shared.cache key o)
          (IsSound-settle dec _ _ _ _ h i key id (answer zero_value aborted o) e)
    Step-Sound (publish i id r e) h = IsSound-publish dec _ _ _ _ h i id r e
    Step-Sound (wake i id r e c) h =
        IsSound-idle dec _ _ _ _ h i (done r) (ground arith) refl (λ n w. absurd (ground arith))
    Step-Sound (cancel i id e) h =
        IsSound-idle dec _ _ _ _ h i (done (zero_value, some cancelled)) (ground arith) refl
          (λ n w. absurd (ground arith))

    Reach-Sound :
        (c : Cache K V) {s : System K V E}
        → Reach dec zero_value aborted cancelled (start c) s
        → Sound dec s
    Reach-Sound c here = start-Sound c
    Reach-Sound c (next r st) = Step-Sound st (Reach-Sound c r)

    -- In every interleaving, two goroutines that run the loader for the same key are the same one.
    pub single_flight :
        (c : Cache K V) (s : System K V E) (i j a b : ℕ) (key : K)
        → Reach dec zero_value aborted cancelled (start c) s
        → s.threads i ≡ loading key a
        → s.threads j ≡ loading key b
        → i ≡ j
    single_flight c s i j a b key r p q =
        let h = Reach-Sound c r in
        h.single i j a (ground arith) (ground (arith, h.leads i key a, h.leads j key b))

    closed_stays-Step :
        {s t : System K V E} (id : ℕ) (r : Answer V E)
        → Sound dec s
        → Step dec zero_value aborted cancelled s t
        → s.shared.calls id ≡ some r
        → t.shared.calls id ≡ some r
    unfolding load_enter
    closed_stays-Step id r h (enter i now key e) c = ground arith
    closed_stays-Step id r h (settle i now n key o e) c = c
    closed_stays-Step id r h (publish i n x e) c = ground (arith, h.unclosed i n)
    closed_stays-Step id r h (wake i n x e d) c = c
    closed_stays-Step id r h (cancel i n e) c = c

    -- A call that was closed with an answer keeps it for ever: every goroutine that waits for the
    -- call, whenever it wakes, returns that answer.
    pub one_answer :
        (c : Cache K V) (s t : System K V E) (id : ℕ) (r : Answer V E)
        → Reach dec zero_value aborted cancelled (start c) s
        → s.shared.calls id ≡ some r
        → Reach dec zero_value aborted cancelled s t
        → t.shared.calls id ≡ some r
    one_answer c s t id r before closed after = (later after before closed).0
      where
        later :
            {u : System K V E}
            → Reach dec zero_value aborted cancelled s u
            → Reach dec zero_value aborted cancelled (start c) s
            → s.shared.calls id ≡ some r
            → (u.shared.calls id ≡ some r) × Sound dec u
        later here b d = (d, Reach-Sound c b)
        later (next w st) b d =
            let (x, y) = later w b d in (closed_stays-Step id r y st x, Step-Sound st y)

    -- A goroutine that waits is never forgotten: its call is closed, or a goroutine that runs the loader
    -- or has its answer will close it.
    waiter_has_leader :
        (c : Cache K V) (s : System K V E) (i id : ℕ)
        → Reach dec zero_value aborted cancelled (start c) s
        → s.threads i ≡ waiting id
        → ((r : Answer V E) × (s.shared.calls id ≡ some r))
          ⊎ ((j : ℕ) × (held (s.threads j) ≡ some id))
    waiter_has_leader c s i id r w = (Reach-Sound c r).awaited i id w

-- A loader that returns a value with a positive ttl and no error has it stored until it expires; one
-- that fails or panics leaves the entries alone.
load_settle_stores :
    {K V E : Type 0} (dec : Discrete K) (now later : ℕ) (c : Cache K V) (key : K) (value : V)
    (ttl : ℤ) (error : E)
    → ltb_ℤ (pos 0) ttl ≡ true
    → ((get_locked dec later (load_settle {E = E} dec now c key (returned value ttl none)) key).1
        ≡ (if ltb later (add_duration now ttl) then some value else none))
      × ((load_settle dec now c key (returned value ttl (some error))).items ≡ c.items)
      × ((load_settle {E = E} dec now c key panicked).items ≡ c.items)
unfolding load_settle
load_settle_stores dec now later c key value ttl error h = (
  rw h (
      get_locked-set_locked dec now later (record c { inflight = remove dec key c.inflight }) key
        value ttl),
  refl,
  refl,
)

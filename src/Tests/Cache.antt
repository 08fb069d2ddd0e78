-- ===== src/Tests/Cache.antt =====
-- The cache and its loads at concrete runs; keys, values and errors are numbers.
use deelp_pkg.TtlCache.{
  Cache, Item, new, get_locked, set_locked, set, len, room_for, expired, make_room, delete_func,
}
use deelp_pkg.TtlCache.Sizes.{IsValid}
use deelp_pkg.TtlCache.History.{Call, run, history, get_locked-history, apply}
use deelp_pkg.TtlCache.Survival.{IsSoonest, set_locked-survives}
use deelp_pkg.TtlCache.Load.{
  System, Outcome, returned, panicked, Reach, here, enter, start, load_enter, load_settle, update,
}
use deelp_pkg.TtlCache.Load.SingleFlight.{single_flight}
use deelp_pkg.Prelude.{
  [], ◌∷◌, true, none, some, pos, refl, List, ℕ, arith, ◌≡◌, ◌⊎◌, ◌≤◌, length, ◌<◌,
}
use deelp_pkg.Mapa.{lookup, put}
use native.Mathlib.Decide.{ℕ_discrete}

abbrev chamadas_teste : List (Call ℕ ℕ)
chamadas_teste = Call.set 0 5 9 (pos 10) ∷ []

get_locked-history_example :
    (len (run ℕ_discrete (new (pos 1)) chamadas_teste)
      ≤ (run ℕ_discrete (new (pos 1)) chamadas_teste).capacity)
    × ((e : Item ℕ) × (history ℕ_discrete (λ _. none) chamadas_teste 5 ≡ some e)
        × (e.value ≡ 9)
        × (3 < e.expires_at))
unfolding run apply get_locked set set_locked room_for make_room new lookup put ℕ_discrete
get_locked-history_example = get_locked-history ℕ_discrete (pos 1) chamadas_teste 3 5 9 refl

abbrev item_teste : Item ℕ
item_teste = record { value = 9; expires_at = 10 }

-- A cache of capacity one with one entry.
abbrev cheia : Cache ℕ ℕ
cheia = record { capacity = 1; items = (5, item_teste) ∷ []; inflight = [] }

pub cheia-IsValid : IsValid ℕ_discrete cheia
unfolding lookup ℕ_discrete
cheia-IsValid = record { positive = omega arith; bounded = omega arith; unique = (refl, tt) }

set_locked-survives_example :
    (lookup ℕ_discrete 5 (set_locked ℕ_discrete 3 cheia 6 8 (pos 4)).items ≡ some item_teste)
    ⊎ ((cheia.capacity ≤ length cheia.items)
        × (lookup ℕ_discrete 6 cheia.items ≡ none)
        × ((expired 3 item_teste ≡ true)
            ⊎ IsSoonest ℕ_discrete item_teste (room_for ℕ_discrete 3 cheia 6)))
unfolding lookup ℕ_discrete
set_locked-survives_example =
    set_locked-survives ℕ_discrete 3 cheia 6 5 8 (pos 4) item_teste cheia-IsValid (λ e. omega arith)
      refl

-- Goroutine 0 leads the load of key 7.
abbrev inicio : System ℕ ℕ ℕ
inicio = start cheia

abbrev liderando : System ℕ ℕ ℕ
liderando = record {
  shared = (load_enter ℕ_discrete 3 inicio.shared 7).0;
  threads = update inicio.threads 0 (load_enter ℕ_discrete 3 inicio.shared 7).1;
}

abbrev lidera : Reach ℕ_discrete 0 1 2 inicio liderando
unfolding start
lidera = Reach.next here (enter 0 3 7 refl)

single_flight_example : ◌≡◌ {A = ℕ} 0 0
unfolding start load_enter get_locked lookup ℕ_discrete
single_flight_example = single_flight ℕ_discrete 0 1 2 cheia liderando 0 0 0 0 7 lidera refl refl

abbrev guardado : Outcome ℕ ℕ
guardado = returned 8 (pos 5) none

-- Entries are deleted while a load of the key is in flight: its value is stored after that, and found.
carga_apos_delete_func :
    (get_locked ℕ_discrete 5
      (load_settle ℕ_discrete 4 (delete_func liderando.shared.cache (λ k v. true)) 7 guardado)
      7).1
    ≡ some 8
unfolding start load_enter load_settle delete_func get_locked set_locked room_for make_room lookup
    put ℕ_discrete
carga_apos_delete_func = refl

abbrev falhado : Outcome ℕ ℕ
falhado = returned 8 (pos 5) (some 1)

abbrev em_panico : Outcome ℕ ℕ
em_panico = panicked

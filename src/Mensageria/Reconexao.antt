-- ===== src/Mensageria/Reconexao.antt =====
-- mensageria/reconexao.go: the loop that reconnects, and its backoff in nanoseconds.
use deelp_pkg.Prelude.{
  ltb, [], ◌∷◌, true, false, List, ℕ, Bool, if◌then◌else◌, ◌*◌, All, ◌≤◌, arith,
}

abbrev pub backoff_inicial : ℕ
backoff_inicial = 2000000000

abbrev pub backoff_maximo : ℕ
backoff_maximo = 60000000000

abbrev pub fator_multiplic : ℕ
fator_multiplic = 2

-- `min`.
abbrev pub min_duracao : ℕ → ℕ → ℕ
min_duracao a b = if ltb a b then a else b

-- The backoff after a failed attempt.
abbrev pub proximo_backoff : ℕ → ℕ
proximo_backoff backoff = min_duracao (backoff * fator_multiplic) backoff_maximo

-- The inner loop of `IniciarMonitoramento`: the outcomes of `conectar` in order (whether it failed), and
-- the waits before each of them, up to the one that connects.
unfoldable pub esperas : ℕ → List Bool → List ℕ
esperas backoff [] = []
esperas backoff (falhou ∷ resto) =
    let depois = esperas (proximo_backoff backoff) resto in
    backoff ∷ (if falhou then depois else [])

esperas-bounds :
    (backoff : ℕ) (tentativas : List Bool)
    → 2000000000 ≤ backoff
    → backoff ≤ 60000000000
    → All (λ t. (2000000000 ≤ t) × (t ≤ 60000000000)) (esperas backoff tentativas)
unfolding esperas
esperas-bounds backoff [] h k = tt
esperas-bounds backoff (false ∷ resto) h k = ((h, k), tt)
esperas-bounds backoff (true ∷ resto) h k =
    ((h, k), ground (arith, esperas-bounds (proximo_backoff backoff) resto))

-- Every wait of a reconnection, from the first, is at least two seconds and at most sixty.
esperas-IsBounded :
    (tentativas : List Bool)
    → All (λ t. (2000000000 ≤ t) × (t ≤ 60000000000)) (esperas backoff_inicial tentativas)
esperas-IsBounded tentativas = esperas-bounds backoff_inicial tentativas (omega arith) (omega arith)

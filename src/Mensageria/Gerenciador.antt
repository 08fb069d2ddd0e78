-- ===== src/Mensageria/Gerenciador.antt =====
-- mensageria/reconexao.go: the manager of the connection. Connections are numbered as they are opened;
-- `Biblioteca` is what the client library knows of them. Each operation is one
-- step, `Dial` with the exchange of the connections included.
pub mod Laws
use deelp_pkg.Prelude.{
  [], ◌∷◌, true, false, none, some, Bool, List, Option, ℕ, ◌≡◌, ◌++◌, ◌==◌, ◌<◌, if◌then◌else◌, suc,
  map,
}

-- The connections: how many were opened, and which of them are not closed.
pub record Biblioteca : Type 0 where
  pub proxima : ℕ
  pub aberta : ℕ → Bool

-- `GerenciadorConexao`, whose callbacks are of a type `F`; the configuration is fixed.
pub record GerenciadorConexao (F : Type 0) : Type 0 where
  pub conn : Option ℕ
  pub on_conn : List F

-- A manager with the connections it acts on.
pub record Estado (F : Type 0) : Type 0 where
  pub biblioteca : Biblioteca
  pub gerenciador : GerenciadorConexao F

-- `Dial`, when it connects.
abbrev pub abrir : Biblioteca → Biblioteca
abrir b = record {
  proxima = suc b.proxima;
  aberta = λ c. if c == b.proxima then true else b.aberta c;
}

-- `conn.Close`, or the library's own closing after a failure.
abbrev pub fechar : ℕ → Biblioteca → Biblioteca
fechar n b = record b { aberta = λ c. if c == n then false else b.aberta c }

-- `conn != nil && !conn.IsClosed()`
abbrev pub disponivel : Biblioteca → Option ℕ → Bool
disponivel b none = false
disponivel b (some n) = b.aberta n

-- The `Close` of the connection, if there is one that is open.
abbrev pub fechar_se_aberta : Option ℕ → Biblioteca → Biblioteca
fechar_se_aberta none b = b
fechar_se_aberta (some n) b = if b.aberta n then fechar n b else b

-- `conectar`, when `Dial` connects: the connection it replaces is closed.
unfoldable pub conectar : {F : Type 0} → Estado F → Estado F
conectar e =
    let atual = e.gerenciador.conn in
    record e {
      biblioteca = fechar_se_aberta atual (abrir e.biblioteca);
      gerenciador = record (e.gerenciador) { conn = some e.biblioteca.proxima };
    }

-- `NovoGerenciadorConexao`: whether the first `Dial` connects.
unfoldable pub novo_gerenciador : {F : Type 0} → Biblioteca → Bool → Option (Estado F)
novo_gerenciador b false = none
novo_gerenciador b true =
    some (conectar (record { biblioteca = b; gerenciador = record { conn = none; on_conn = [] } }))

-- `Channel`: the connection whose channel is opened, or the error.
unfoldable pub channel : {F : Type 0} → Estado F → Option ℕ
channel e = let atual = e.gerenciador.conn in if disponivel e.biblioteca atual then atual else none

-- `OnReconexao`.
abbrev pub ao_reconectar : {F : Type 0} → F → Estado F → Estado F
ao_reconectar fn e = record e {
  gerenciador = record (e.gerenciador) { on_conn = e.gerenciador.on_conn ++ (fn ∷ []) };
}

-- `notificarReconexao`: the calls, in order, each with the connection.
abbrev pub notificar_reconexao : {F : Type 0} → GerenciadorConexao F → List (F × Option ℕ)
notificar_reconexao g = map (λ fn. (fn, g.conn)) g.on_conn

-- `Close`.
abbrev pub close : {F : Type 0} → Estado F → Estado F
close e = record e { biblioteca = fechar_se_aberta e.gerenciador.conn e.biblioteca }

-- What happens to a manager: its operations, and a connection that fails. A `Dial` that fails changes
-- nothing.
pub data EventoDeConexao (F : Type 0) : Type 0 where
  queda : ℕ → EventoDeConexao F
  tentativa : Bool → EventoDeConexao F
  registro_de : F → EventoDeConexao F
  encerramento : EventoDeConexao F

unfoldable pub ao_evento : {F : Type 0} → Estado F → EventoDeConexao F → Estado F
ao_evento e (queda n) = record e { biblioteca = fechar n e.biblioteca }
ao_evento e (tentativa false) = e
ao_evento e (tentativa true) = conectar e
ao_evento e (registro_de fn) = ao_reconectar fn e
ao_evento e encerramento = close e

unfoldable pub ao_longo : {F : Type 0} → Estado F → List (EventoDeConexao F) → Estado F
ao_longo e [] = e
ao_longo e (v ∷ vs) = ao_longo (ao_evento e v) vs

-- Only the manager's own connection may be open, and no connection to come is.
pub record SemVazamento {F : Type 0} (e : Estado F) : Type 0 where
  pub so_a_atual : (n : ℕ) → e.biblioteca.aberta n ≡ true → e.gerenciador.conn ≡ some n
  pub numerada : (n : ℕ) → e.gerenciador.conn ≡ some n → n < e.biblioteca.proxima

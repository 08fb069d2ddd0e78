-- ===== src/Http.antt =====
-- The part of net/http that the middlewares of the package read and write.
pub mod Status
use deelp_pkg.Texto.{Texto, codes, eq_texto}
use deelp_pkg.Auth.Claims.{Contexto}
use deelp_pkg.Prelude.{String, ℕ, Bool, List, Option}

-- A request: `header` is `Header.Get`, `cookie` is the value that `Cookie` finds, `path_value` is
-- `PathValue`.
pub record Request : Type 0 where
  pub method : Texto
  pub path : Texto
  pub raw_query : Texto
  pub remote_addr : Texto
  pub header : String → Texto
  pub cookie : Texto → Option Texto
  pub path_value : String → Texto
  pub contexto : Contexto

-- What a handler does with a request: the innermost handler is given a request, or a middleware
-- answers by its responder with a status and a message, and the headers that it set before.
pub data Reply : Type 0 where
  served : Request → Reply
  denied : ℕ → String → List (String × Texto) → Reply

abbrev pub Handler : Type 0
Handler = Request → Reply

abbrev pub Middleware : Type 0
Middleware = Handler → Handler

abbrev pub is_method : Request → String → Bool
is_method r name = eq_texto r.method (codes name)

-- ===== src/Observabilidade/Requisicao.antt =====
-- observabilidade/http.go: the route, the name and the labels of a request, and observabilidade/ticker.go: a
-- round of a job. What is written to spans and instruments is a record.
use deelp_pkg.Texto.{Texto, Unicode, codes, vazio, eq_texto, has_prefix, has_suffix, equal_fold}
use deelp_pkg.Auth.Mask.{itoa}
use deelp_pkg.Http.{Request}
use deelp_pkg.Prelude.{
  [], ◌∷◌, String, true, false, none, some, suc, pos, negsuc, ◌&&◌, ◌||◌, ◌==◌, Bool, List, Option,
  if◌then◌else◌, ℕ, any, leb, not, ℤ, ◌++◌, ◌/◌,
}

abbrev pub rota_nao_roteada : Texto
rota_nao_roteada = codes "nao_roteada"

-- `rotaDe`: of the reference that the mux fills, and of the pattern of the request.
unfoldable pub rota_de : Option Texto → Texto → Texto
rota_de (some p) pattern = p
rota_de none pattern = if not (vazio pattern) then pattern else rota_nao_roteada

-- `nomeSpanDaRota`.
abbrev tem_espaco : Texto → Bool
tem_espaco s = any (λ c. c == 32) s

unfoldable pub nome_span_da_rota : Texto → Texto → Texto
nome_span_da_rota metodo rota =
    if eq_texto rota rota_nao_roteada
    then metodo ++ codes " " ++ rota
    else if tem_espaco rota
        && not (has_prefix rota (codes " "))
        && not (has_prefix rota (codes "/"))
    then rota
    else metodo ++ codes " " ++ rota

-- `ignorarRequisicao`, of the path.
abbrev barras : Texto → ℕ
barras [] = 0
barras (c ∷ s) = let resto = barras s in if c == b'/' then suc resto else resto

abbrev uma_de : List String → Texto → Bool
uma_de [] k = false
uma_de (n ∷ ns) k = eq_texto k (codes n) || uma_de ns k

unfoldable pub ignorar_requisicao : Texto → Bool
ignorar_requisicao path =
    if uma_de ("/health" ∷ "/healthz" ∷ "/ready" ∷ "/readyz" ∷ "/metrics" ∷ []) path
    then true
    else leb (barras path) 2
      && (has_suffix path (codes "/health") || has_suffix path (codes "/healthz"))

-- `requisicaoPublica`, `ehUpgrade`.
unfoldable pub requisicao_publica : Request → Bool
requisicao_publica r = vazio (r.header "Authorization") && vazio (r.header "X-Internal-Key")

unfoldable pub eh_upgrade : Unicode → Request → Bool
eh_upgrade u r = equal_fold u (r.header "Upgrade") (codes "websocket")

-- `metodoConhecido`, `classeStatus`.
abbrev pub metodos_conhecidos : List String
metodos_conhecidos =
    "GET" ∷ "HEAD" ∷ "POST" ∷ "PUT" ∷ "PATCH" ∷ "DELETE" ∷ "OPTIONS" ∷ "CONNECT" ∷ "TRACE" ∷ []

unfoldable pub metodo_conhecido : Texto → Texto
metodo_conhecido m = if uma_de metodos_conhecidos m then m else codes "_OTHER"

unfoldable pub classe_status : ℕ → Texto
classe_status codigo = itoa (codigo / 100) ++ codes "xx"

-- What a request leaves in its span and in the histogram of durations, if anything.
pub record Medida : Type 0 where
  pub rota : Texto
  pub metodo : Texto
  pub status_classe : Texto

pub record Finalizada : Type 0 where
  pub nome_span : Texto
  pub http_route : Texto
  pub erro_no_span : Bool
  pub medida : Option Medida

-- The route, told apart where no handler was reached.
abbrev rota_final : Texto → ℕ → Texto → Texto
rota_final metodo codigo rota =
    if not (eq_texto rota rota_nao_roteada)
    then rota
    else if eq_texto metodo (codes "OPTIONS")
    then codes "preflight_cors"
    else if codigo == 401 || codigo == 402 || codigo == 403 || codigo == 429
    then codes "recusada_antes_da_rota"
    else rota

-- `finalizarRequisicao`.
unfoldable pub finalizar_requisicao : Unicode → Option Texto → Texto → Request → ℕ → Finalizada
finalizar_requisicao u referencia pattern r codigo =
    let rota = rota_final r.method codigo (rota_de referencia pattern) in
    record {
      nome_span = nome_span_da_rota r.method rota;
      http_route = rota;
      erro_no_span = leb 500 codigo;
      medida =
          if eh_upgrade u r
          then none
          else some (record {
            rota = rota;
            metodo = metodo_conhecido r.method;
            status_classe = classe_status codigo;
          });
    }

-- How the handler ends: with a status, or in a panic, of which one is `http.ErrAbortHandler`.
pub data Fim : Type 0 where
  respondeu : ℕ → Fim
  abortou entrou_em_panico : Fim

abbrev codigo_de : Fim → ℕ
codigo_de (respondeu codigo) = codigo
codigo_de abortou = 499
codigo_de entrou_em_panico = 500

-- What the middleware adds to the requests in flight, in order, and what it writes at the end.
pub record Atendimento : Type 0 where
  pub em_andamento : List ℤ
  pub finalizada : Option Finalizada

-- `MiddlewareHTTP`, with the route that the mux has noted by the end.
unfoldable pub middleware_http : Unicode → Option Texto → Texto → Request → Fim → Atendimento
middleware_http u referencia pattern r fim =
    if ignorar_requisicao r.path then record { em_andamento = []; finalizada = none } else record {
      em_andamento = pos 1 ∷ negsuc 0 ∷ [];
      finalizada = some (finalizar_requisicao u referencia pattern r (codigo_de fim));
    }

-- `RoundTrip` of the measured transport: its labels; `none` is an error, and no address a nil URL.
unfoldable pub destino_de : Option Texto → Texto
destino_de none = codes "desconhecido"
destino_de (some host) = host

abbrev classe_ou_erro : Option ℕ → Texto
classe_ou_erro none = codes "erro"
classe_ou_erro (some status) = classe_status status

unfoldable pub round_trip : Option Texto → Texto → Option ℕ → Medida
round_trip url metodo resposta = record {
  rota = destino_de url;
  metodo = metodo;
  status_classe = classe_ou_erro resposta;
}

-- A round of a job: it ends without an error, with one, or in a panic.
pub data FimDaRodada : Type 0 where
  sem_erro com_erro em_panico : FimDaRodada

pub record Rodada : Type 0 where
  pub resultado : Texto
  pub falhas : List ℕ
  pub erro_no_span : Bool
  pub propaga_panico : Bool

-- `ResultadoDe`, and what `RodadaTicker` counts as failures, in order.
abbrev pub resultado_de : Bool → Texto
resultado_de falhou = if falhou then codes "erro" else codes "ok"

abbrev rodada : Bool → Bool → Rodada
rodada falhou panico = record {
  resultado = resultado_de falhou;
  falhas = if falhou then 0 ∷ 1 ∷ [] else 0 ∷ [];
  erro_no_span = falhou;
  propaga_panico = panico;
}

unfoldable pub rodada_ticker : FimDaRodada → Rodada
rodada_ticker sem_erro = rodada false false
rodada_ticker com_erro = rodada true false
rodada_ticker em_panico = rodada true true

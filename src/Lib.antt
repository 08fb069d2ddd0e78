-- ===== src/Lib.antt =====
-- The Go package deelp-pkg: the shared libraries of the Deelp services. A request passes auth's
-- middlewares, which read the JWT, put its claims in the context, hold it to its company and ask a
-- checker for permissions; assinatura's gate for the tenant's contract; and seguranca's guards, by
-- address and against forged requests. The checkers of authz and assinatura ask another service over
-- HTTP, behind the cache of internal/ttlcache. mensageria publishes to a broker, tenantdados exports
-- and purges a tenant's data over internal routes with their own key, observabilidade decides what is
-- traced and what of it may leave the process, and the clients of Redis, MongoDB, PostgreSQL and S3 are
-- opened from configurations. The command deelp-arquitetura checks the layers of a service.
--
-- How Go is read. A string is the list of its code points (Texto), a map an association list with
-- its decidable equality (Mapa), a pointer, an interface value or an error an Option, an instant or a
-- duration a number of nanoseconds that a definition takes where the code reads the clock. A handler
-- is a function from requests to replies (Http), so a middleware calls it at most once. State is
-- passed and given back; the goroutines of Load are a step relation.
--
-- Parts:
--   Texto, Mapa, Http, Prelude: strings, maps, net/http, numbers and lists.
--   TtlCache: internal/ttlcache/ttlcache.go, a definition to each method; TtlCache/Load: Load, a step
--     to each section under the mutex and each action outside it.
--   Auth/Claims, Auth/Contexto: auth/contexto.go. Auth/Leitura: auth/leitura.go. Auth/Mask: auth/mask.go.
--   Auth/Token, Auth/Middleware, Auth/Tenant: auth/middleware.go. Auth/Canal: auth/canal.go.
--   Auth/Permissao: auth/permissao.go.
--   Seguranca/RateLimiter, IpBlocker, Csrf, Audit, Ip, Env, Headers: the files of seguranca/ of those names.
--   Seguranca/Csrf/Token: the handler of tokens of csrf.go. Seguranca/IpBlocker/History: a history of calls
--     and the answers that it gives, by scanning it; IpBlocker/Partilhado: its state in Redis.
--   Seguranca/Eventos: seguranca/eventos.go, metricas.go.
--   Assinatura/Guarda: assinatura/guarda.go. Assinatura/HttpChecker: assinatura/http_checker.go.
--   Authz: authz/http_checker.go. Internalauth: internalauth/internalauth.go.
--   Telefone: telefone/whatsapp_br.go. Dfe: dfe/s3key.go. Resposta: resposta/.
--   Mensageria: mensageria/mensageria.go. Mensageria/Publisher: mensageria/publisher.go.
--   Mensageria/Declaracao: DeclararExchange and DeclararFila of mensageria.go. Observabilidade/Contagem: the
--     counters of observabilidade/negocio.go.
--   Mensageria/Reconexao, Gerenciador: the backoff and the manager of mensageria/reconexao.go.
--   Tenantdados, Tenantdados/Exportacao: tenantdados/core/tenantdados.go, fonte_func.go.
--   Tenantdados/S3, Csv: tenantdados/core/s3.go, csv.go. Tenantdados/Postgres, Mongo:
--     tenantdados/postgres/tabela.go, tenantdados/mongo/colecao.go, valor.go.
--   Tenantdados/Transporte: tenantdados/transporte/handlers.go.
--   Tenantdados/Cliente: tenantdados/transporte/cliente.go.
--   Tenantdados/Transporte/Rede, Remoto: the client's calls against the routes, over a network that
--     delivers what the routes write.
--   Observabilidade/Iniciar: Iniciar and instalarProviders of observabilidade/observabilidade.go, and amostragem.go.
--   Observabilidade/Endpoint, Coletor: observabilidade/endpoint.go, coletor.go, observabilidade.go.
--   Observabilidade/Redacao/Regexp, Mensagem: the regular expressions and redigirTexto of redacao.go.
--   Observabilidade/Redacao, Exportador: observabilidade/redacao.go, exportador.go, tenant.go.
--   Observabilidade/Requisicao: observabilidade/http.go, ticker.go.
--   Observabilidade/Etapa: observabilidade/negocio.go, tracing.go. Mensageria/Consumo: mensageria/consumo.go.
--   Clientes: cache/cache.go, mongodb/mongodb.go, postgres/postgres.go. Clientes/Redis: cache/cache.go.
--   Clientes/S3: s3/cliente.go. Consumo: consumo/consumo.go.
--   Arquitetura: cmd/deelp-arquitetura/main.go. Ordem: the sorts of the package sort.
--   Xmldsig: xmldsig/signer.go. Tests: concrete inputs.
--
-- Parameters: the JWT library (Jwt), the tables of Unicode past ASCII (Unicode), uuid.Parse, the
-- signing of a token, the hash of a cache key, the HTTP exchanges, the Redis script, the broker's
-- client (Broker; of a connection, whether it is open), the bucket's client (Armazenamento, Aws), the
-- databases' (BancoPg, BancoMongo, Redis, RedisIp), url.Parse, the XML library with goxmldsig (Etree),
-- the libraries of keys and certificates (Cripto), unpadded base64 and the random bytes of a token, the
-- environment and the making of exporters (AmbienteOtel).
--
-- Bounds: no definition runs on fuel but the two attempts of enviarLocked, which are the code's own,
-- and the digits of itoa, of which twenty are enough for every int (Auth.Mask.Laws.atoi-itoa).
--
-- Not modelled: logging, the instruments and exporters of OpenTelemetry, the JSON of bodies, zip files, and
-- the opening of connections.
pub mod Prelude
pub mod Texto
pub mod Mapa
pub mod Ordem
pub mod TtlCache
pub mod Http
pub mod Auth
pub mod Seguranca
pub mod Assinatura
pub mod Authz
pub mod Internalauth
pub mod Telefone
pub mod Resposta
pub mod Dfe
pub mod Mensageria
pub mod Tenantdados
pub mod Tests
pub mod Xmldsig
pub mod Arquitetura
pub mod Clientes
pub mod Consumo
pub mod Observabilidade

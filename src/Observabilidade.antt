-- ===== src/Observabilidade.antt =====
-- observabilidade/: what the tracing and the metrics of a service decide. Spans, instruments and exporters of
-- OpenTelemetry are left out; what is written to them is a value.
pub mod Endpoint
pub mod Coletor
pub mod Redacao
pub mod Exportador
pub mod Requisicao
pub mod Etapa
pub mod Contagem
pub mod Iniciar

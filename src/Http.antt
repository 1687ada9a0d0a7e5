-- ===== src/Http.antt =====
-- The outbound calls of src/evenkeel/infrastructure/adapters/http.
pub mod Transport
pub mod Risk
pub mod Call

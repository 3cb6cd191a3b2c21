-- ===== src/Api.antt =====
-- railone_api: rate limiting of authenticated requests.
pub mod RateLimit
mod Tests

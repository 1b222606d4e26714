-- ===== src/Http.antt =====
-- internal/http/middleware: the gates in front of the handlers.
pub mod RateLimiter

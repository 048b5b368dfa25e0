-- ===== src/RateLimit.antt =====
-- deepwiki/internal/ratelimit and api/middleware/ratelimit.go: the sliding window, the limiter with its
-- fallback, and the two levels of the middleware.
pub mod Window
pub mod Limiter
pub mod Middleware

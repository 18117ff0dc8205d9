-- ===== src/RateLimit.antt =====
-- The rate limiter of the services (legacy/services_python/rate_limiter.py), part by part.
pub mod Bucket
pub mod Limiter
mod Examples

-- ===== src/Cache.antt =====
-- caching_http_proxy/caching: the shared cache of responses.
pub mod Entry
pub mod Lru
pub mod Store
mod Tests

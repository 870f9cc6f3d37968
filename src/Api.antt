-- ===== src/Api.antt =====
-- frontend/src/lib/api.ts, but for `API_BASE`, which is in Endpoint.
pub mod Stream
pub mod Request
pub mod Inflight
pub mod Refresh

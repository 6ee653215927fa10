-- ===== src/Transport.antt =====
-- transport/: the requests that agent and server exchange, the interceptors that sign and check
-- them, and the client that sends them.
pub mod Value
pub mod Response
pub mod Request
pub mod Interceptor
pub mod Client

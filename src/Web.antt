-- ===== src/Web.antt =====
-- web: the handlers of the requests that the server sends.
pub mod Dispatch
pub mod Serve
pub mod Upkeep
pub mod Blade
pub mod Cache
pub mod Reports

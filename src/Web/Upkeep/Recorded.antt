-- ===== src/Web/Upkeep/Recorded.antt =====
-- web/handler/updateApplication.go and pkg/tools/auth.go: what an update leaves for the next start.
use winchaos.Transport.Request.{Request}
use winchaos.Transport.Response.{Response}

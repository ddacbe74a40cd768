-- ===== src/ServerHttp.antt =====
-- internal/serverhttp: the HTTP handlers of the daemon.
pub mod Webhook
pub mod Prober
pub mod Readyz
pub mod Routes

-- ===== src/Serve.antt =====
-- internal/serve: the scan worker and the manager of the push-notification channel.
pub mod ChannelManager
pub mod RandomHex
pub mod Worker

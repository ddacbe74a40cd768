-- ===== src/Store.antt =====
-- internal/store: the accessors of store.go over the tables of migrate.go.
pub mod Sql
pub mod Migrate
pub mod Documents
pub mod Sync
pub mod DaemonStatus
pub mod Grows
pub mod Token

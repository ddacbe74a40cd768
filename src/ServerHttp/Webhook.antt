-- ===== src/ServerHttp/Webhook.antt =====
-- internal/serverhttp/webhook.go: `WebhookHandler.ServeHTTP`.
pub mod Auth
use paper_claw.Base.{
  ℕ, ◌+◌, Text, codes, Result, ok, err, Bool, not, ◌||◌, Option, is_empty, text_eq, if◌then◌else◌,
}
use mathlib.Core.Option
use paper_claw.Store.Sql.{Db, Rfc3339}
use paper_claw.Store.Sync.{SyncState, get_sync_state}

-- The headers that the handler reads; a missing one is empty.
pub record Notification : Type 0 where
  pub channel_id : Text
  pub channel_token : Text
  pub resource_state : Text

-- The store, the number of calls of `enqueue`, and the metric, which may be missing.
pub record Hook : Type 0 where
  pub db : Db
  pub enqueued : ℕ
  pub webhook_count : Option ℕ

-- `channelID` and `channelToken` are those of the active channel.
abbrev pub is_active : SyncState → Notification → Bool
is_active ss r = not (
    is_empty ss.channel_id
    || (not (text_eq r.channel_id ss.channel_id) || not (text_eq r.channel_token ss.channel_token)))

answer : Result SyncState × Db → Notification → Hook → ℕ × Hook
answer (err e, db) r h = (500, record h { db = db })
answer (ok ss, db) r h =
    let h' = record h { db = db } in
    if not (is_active ss r)
    then (403, h')
    else if text_eq r.resource_state (codes "sync")
    then (200, h')
    else (
      200,
      record h' {
        enqueued = h'.enqueued + 1;
        webhook_count = Option.map (λ n. n + 1) h'.webhook_count;
      },
    )

-- The status code, and the state behind.
unfoldable pub serve_http : Rfc3339 → Notification → Hook → ℕ × Hook
unfolding answer
serve_http rfc r h = answer (get_sync_state rfc h.db) r h

-- ===== src/ServerHttp/Webhook/Auth.antt =====
-- Which notifications the webhook lets through.
use mathlib.Core.Option
use paper_claw.Base.{
  ℕ, ◌+◌, Result, ok, err, ap, ◌∙◌, codes, true, text_eq_iff, ◌≡◌, ◌≢◌, refl, arith, [], inl, inr,
  Bool-cases, is_empty-ne, ne-is_empty,
}
use paper_claw.Store.Sql.{Db, Rfc3339, Works}
use paper_claw.Store.Sync.{
  SyncState, sync_of, get_sync_state, get_sync_state-tables, get_sync_state-Works,
}
use paper_claw.ServerHttp.Webhook.{Notification, Hook, is_active, answer, serve_http}

-- The notification carries the id and the token of the channel that is stored, and one is stored.
pub record IsGenuine (ss : SyncState) (r : Notification) : Type 0 where
  pub registered : ss.channel_id ≢ []
  pub id : r.channel_id ≡ ss.channel_id
  pub token : r.channel_token ≡ ss.channel_token

is_active-IsGenuine : (ss : SyncState) (r : Notification) → is_active ss r ≡ true → IsGenuine ss r
is_active-IsGenuine ss r h = record {
  registered = ne-is_empty ss.channel_id (ground arith);
  id = ground (arith, text_eq_iff r.channel_id ss.channel_id);
  token = ground (arith, text_eq_iff r.channel_token ss.channel_token);
}

IsGenuine-is_active : (ss : SyncState) (r : Notification) → IsGenuine ss r → is_active ss r ≡ true
IsGenuine-is_active ss r g = rw (
  is_empty-ne ss.channel_id g.registered,
  (text_eq_iff r.channel_id ss.channel_id).1 g.id,
  (text_eq_iff r.channel_token ss.channel_token).1 g.token,
)

-- What the handler does with a notification, by the sync state: a genuine one is answered with 200
-- and, unless it is Drive's handshake, enqueues one scan and is counted; any other is answered with
-- 403 and changes nothing.
pub record Decides (ss : SyncState) (r : Notification) (h h' : Hook) (code : ℕ) : Type 0 where
  pub change :
      IsGenuine ss r
      → r.resource_state ≢ codes "sync"
      → (code ≡ 200)
        × (h' ≡ record h {
          enqueued = h.enqueued + 1;
          webhook_count = Option.map (λ n. n + 1) h.webhook_count;
        })
  pub handshake : IsGenuine ss r → r.resource_state ≡ codes "sync" → (code ≡ 200) × (h' ≡ h)
  pub rejected : ¬ IsGenuine ss r → (code ≡ 403) × (h' ≡ h)

-- In a working store the handler decides by the channel that is stored.
pub serve_http-Decides :
    (rfc : Rfc3339) (r : Notification) (h : Hook)
    → Works h.db
    → Decides (sync_of rfc h.db) r h (serve_http rfc r h).1 (serve_http rfc r h).0
unfolding serve_http answer
serve_http-Decides rfc r h works =
    let ss = sync_of rfc h.db in
    rw (get_sync_state-Works rfc h.db works) (record {
      change = λ g n.
          rw (IsGenuine-is_active ss r g)
            (ground (arith, text_eq_iff r.resource_state (codes "sync")));
      handshake = λ g e.
          rw (IsGenuine-is_active ss r g)
            (ground (arith, text_eq_iff r.resource_state (codes "sync")));
      rejected = λ g. elim (Bool-cases (is_active ss r)) [
        | inl a ↦ absurd (g (is_active-IsGenuine ss r a))
        | inr a ↦ rw a (refl, refl)
      ];
    })

answer-db : (r : Result SyncState × Db) (n : Notification) (h : Hook) → (answer r n h).1.db ≡ r.1
unfolding answer
answer-db (err e, db) n h = refl
answer-db (ok ss, db) n h = ground arith

-- The webhook only reads the store.
pub serve_http-tables :
    (rfc : Rfc3339) (n : Notification) (h : Hook) → (serve_http rfc n h).1.db.tables ≡ h.db.tables
unfolding serve_http
serve_http-tables rfc n h =
    ap (λ db. db.tables) (answer-db (get_sync_state rfc h.db) n h) ∙ get_sync_state-tables rfc h.db

answer-enqueues :
    (r : Result SyncState × Db) (n : Notification) (h : Hook)
    → n.resource_state ≢ codes "sync"
    → (answer r n h).0 ≡ 200
    → (answer r n h).1.enqueued ≡ h.enqueued + 1
unfolding answer
answer-enqueues (err e, db) n h notified done = absurd (omega arith)
answer-enqueues (ok ss, db) n h notified done =
    ground (arith, text_eq_iff n.resource_state (codes "sync"))

-- A notification that is no handshake is answered with 200 only if a scan was asked for.
pub serve_http-enqueues :
    (rfc : Rfc3339) (n : Notification) (h : Hook)
    → n.resource_state ≢ codes "sync"
    → (serve_http rfc n h).0 ≡ 200
    → (serve_http rfc n h).1.enqueued ≡ h.enqueued + 1
unfolding serve_http
serve_http-enqueues rfc n h notified done =
    answer-enqueues (get_sync_state rfc h.db) n h notified done

-- ===== src/Serve/ChannelManager/Active.antt =====
-- A channel that `ensureChannel` registers is the one that the store holds behind it.
use paper_claw.Base.{ℕ, ◌*◌, ◌/◌, ◌^◌, ok, false, is_empty, ◌≡◌}
use paper_claw.Serve.RandomHex.{random_hex}
use paper_claw.Store.Sql.{Rfc3339, IsRfc3339, Works}
use paper_claw.Store.Sync.{
  SyncState, sync_of, get_sync_state-Works, put_channel-Works, sync_of-put_channel,
}
use paper_claw.Serve.ChannelManager.{
  Channel, WatchRequest, ChangeDriver, Settings, Managed, is_fresh, stored_channel, register,
  ensure_channel,
}

module _ (driver : ChangeDriver) (rfc : Rfc3339) (m : Settings) where
  -- The request that `ensureChannel` sends from a state, and Drive's state when it arrives.
  unfoldable pub request_from : SyncState → driver.State → WatchRequest × driver.State
  request_from ss d =
      let (channel_id, d') = random_hex driver.rand_read 16 d in
      let (channel_token, d'') = random_hex driver.rand_read 32 d' in
      (
        record {
          page_token = ss.start_page_token;
          channel_id = channel_id;
          webhook_url = m.webhook_url;
          channel_token = channel_token;
          ttl = m.channel_ttl;
        },
        d'',
      )

  -- In a working store with a start page token and no fresh channel, `ensureChannel` asks Drive for
  -- a channel. If Drive grants one, the store then holds its id, its resource and its expiry to the
  -- second, with the very token that was sent, and the start page token is kept.
  pub ensure_channel-registers :
      IsRfc3339 rfc
      → (now : ℕ) (s : Managed driver.State) (c : Channel) (d : driver.State) → Works s.db
      → is_fresh driver rfc m now (sync_of rfc s.db) ≡ false
      → is_empty (sync_of rfc s.db).start_page_token ≡ false
      → (let (request, d') = request_from (sync_of rfc s.db) s.drive in
          driver.watch_changes request d' ≡ (ok c, d))
      → sync_of rfc (ensure_channel driver rfc m now s).db ≡ record (sync_of rfc s.db) {
        channel_id = c.assigned_id;
        channel_token = (request_from (sync_of rfc s.db) s.drive).0.channel_token;
        resource_id = c.resource_id;
        expires_at = c.expires_at / 10 ^ 9 * 10 ^ 9;
      }
  unfolding ensure_channel register stored_channel request_from
  ensure_channel-registers lawful now s c d works due there granted =
      let token = (request_from (sync_of rfc s.db) s.drive).0.channel_token in
      rw (get_sync_state-Works rfc s.db works, due, there, granted)
        (sync_of-put_channel rfc lawful c.assigned_id token c.resource_id c.expires_at s.db
          (put_channel-Works rfc c.assigned_id token c.resource_id c.expires_at s.db works).0)

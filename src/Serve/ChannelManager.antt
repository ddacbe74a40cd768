-- ===== src/Serve/ChannelManager.antt =====
-- internal/serve/channelmgr.go: `ChannelManager`, over any Drive.
-- Times and durations are nanoseconds, times from Go's zero time. `ExpiresAt.Add(-lead)` is only
-- compared with `now`, so the lead is added on the other side. Logging is left out.
pub mod Registers
pub mod Active
pub mod Renewal
pub mod Grows
use paper_claw.Base.{
  ℕ, ◌+◌, ◌-◌, ◌*◌, ◌^◌, Text, Error, Result, ok, err, Method, Bool, true, false, not, ◌&&◌, Option,
  List, [], ◌∷◌, is_empty, ltb, ◌==◌, if◌then◌else◌,
}
use paper_claw.Store.Sql.{Db, Rfc3339}
use paper_claw.Serve.RandomHex.{random_hex}
use paper_claw.Store.Sync.{SyncState, zero_sync, get_sync_state, put_start_page_token, put_channel}

-- `assigned_id`, `resource_id` and `expires_at`, as Drive assigns them.
pub record Channel : Type 0 where
  pub assigned_id : Text
  pub resource_id : Text
  pub expires_at : ℕ

-- The arguments of `WatchChanges`.
pub record WatchRequest : Type 0 where
  pub page_token : Text
  pub channel_id : Text
  pub webhook_url : Text
  pub channel_token : Text
  pub ttl : ℕ

-- Drive and the source of random numbers, with the state behind them.
pub record ChangeDriver : Type 1 where
  pub State : Type 0
  pub get_start_page_token : Method State Text
  pub watch_changes : WatchRequest → Method State Channel
  pub stop_channel : Text → Text → State → Option Error × State
  pub rand_read : ℕ → State → List ℕ × State

pub record Settings : Type 0 where
  pub webhook_url : Text
  pub channel_ttl : ℕ
  pub renew_lead_time : ℕ

-- The store and Drive, and the waits that `Run` has begun, the last one first.
pub record Managed (D : Type 0) : Type 0 where
  pub db : Db
  pub drive : D
  pub waits : List ℕ

abbrev pub minute : ℕ
minute = 60 * 10 ^ 9

-- What ends a wait of `Run`: the timer, at a time, or the context.
pub data Wake : Type 0 where
  timer : ℕ → Wake
  cancelled : Wake

module _ (driver : ChangeDriver) (rfc : Rfc3339) (m : Settings) where
  stored_token : Result Text × driver.State → Managed driver.State → Managed driver.State
  stored_token (err e, d) s = record s { drive = d }
  stored_token (ok token, d) s = record s { db = (put_start_page_token token s.db).1; drive = d }

  token_if_missing : Result SyncState × Db → Managed driver.State → Managed driver.State
  unfolding stored_token
  token_if_missing (err e, db) s = record s { db = db }
  token_if_missing (ok ss, db) s =
      let s' = record s { db = db } in
      if is_empty ss.start_page_token
      then stored_token (driver.get_start_page_token s'.drive) s'
      else s'

  unfoldable pub ensure_start_page_token : Managed driver.State → Managed driver.State
  unfolding token_if_missing
  ensure_start_page_token s = token_if_missing (get_sync_state rfc s.db) s

  -- `time.Now().Before(ss.ExpiresAt.Add(-m.renewLeadTime))` for a channel that is there.
  abbrev pub is_fresh : ℕ → SyncState → Bool
  is_fresh now ss = not (is_empty ss.channel_id) && ltb (now + m.renew_lead_time) ss.expires_at

  stored_channel :
      Text → Result Channel × driver.State → Managed driver.State → Managed driver.State
  stored_channel channel_token (err e, d) s = record s { drive = d }
  stored_channel channel_token (ok c, d) s = record s {
    db = (put_channel rfc c.assigned_id channel_token c.resource_id c.expires_at s.db).1;
    drive = d;
  }

  register : SyncState → Managed driver.State → Managed driver.State
  unfolding stored_channel
  register ss s =
      let (channel_id, d) = random_hex driver.rand_read 16 s.drive in
      let (channel_token, d') = random_hex driver.rand_read 32 d in
      let request : WatchRequest = record {
        page_token = ss.start_page_token;
        channel_id = channel_id;
        webhook_url = m.webhook_url;
        channel_token = channel_token;
        ttl = m.channel_ttl;
      } in
      stored_channel channel_token (driver.watch_changes request d') s

  channel_if_due : ℕ → Result SyncState × Db → Managed driver.State → Managed driver.State
  unfolding register
  channel_if_due now (err e, db) s = record s { db = db }
  channel_if_due now (ok ss, db) s =
      let s' = record s { db = db } in
      if is_fresh now ss then s' else if is_empty ss.start_page_token then s' else register ss s'

  unfoldable pub ensure_channel : ℕ → Managed driver.State → Managed driver.State
  unfolding channel_if_due
  ensure_channel now s = channel_if_due now (get_sync_state rfc s.db) s

  -- `wait`, from the sync state that was read.
  unfoldable pub wait_for : ℕ → SyncState → ℕ
  wait_for now ss = if ss.expires_at == 0 then minute else ss.expires_at - (now + m.renew_lead_time)

  -- The state that the loop goes on with: a zero state if it could not be read.
  abbrev read_or_zero : Result SyncState → SyncState
  read_or_zero (ok ss) = ss
  read_or_zero (err e) = zero_sync

  abbrev stop : SyncState → Managed driver.State → Managed driver.State
  stop ss s =
      if is_empty ss.channel_id
      then s
      else record s { drive = (driver.stop_channel ss.channel_id ss.resource_id s.drive).1 }

  stop_last : Result SyncState × Db → Managed driver.State → Managed driver.State
  stop_last (err e, db) s = record s { db = db }
  stop_last (ok ss, db) s = stop ss (record s { db = db })

  -- The loop's body behind the read of the sync state.
  abbrev waiting : ℕ → Result SyncState × Db → Managed driver.State → Managed driver.State
  waiting now (r, db) s = record s { db = db; waits = wait_for now (read_or_zero r) ∷ s.waits }

  round_from : ℕ → Wake → Result SyncState × Db → Managed driver.State → Bool × Managed driver.State
  unfolding stop_last wait_for ensure_channel
  round_from now cancelled (r, db) s =
      let s' = waiting now (r, db) s in (false, stop_last (get_sync_state rfc s'.db) s')
  round_from now (timer later) (r, db) s =
      (true, ensure_channel later (stop (read_or_zero r) (waiting now (r, db) s)))

  -- One round of `Run`, begun at `now`; the flag says whether the loop goes on.
  unfoldable pub run_round : ℕ → Wake → Managed driver.State → Bool × Managed driver.State
  unfolding round_from
  run_round now wake s = round_from now wake (get_sync_state rfc s.db) s

  -- The rounds of a schedule: when each begins, and what ends it.
  unfoldable pub run_rounds : List (ℕ × Wake) → Managed driver.State → Managed driver.State
  run_rounds [] s = s
  run_rounds ((now, wake) ∷ rounds) s =
      let (again, s') = run_round now wake s in
      let rest = run_rounds rounds s' in if again then rest else s'

  -- `Run`; with no public URL it only waits for the context.
  unfoldable pub run : ℕ → List (ℕ × Wake) → Managed driver.State → Managed driver.State
  unfolding run_rounds ensure_start_page_token ensure_channel
  run now rounds s =
      if is_empty m.webhook_url
      then s
      else run_rounds rounds (ensure_channel now (ensure_start_page_token s))

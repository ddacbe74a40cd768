-- ===== src/Serve/ChannelManager/Grows.antt =====
-- The channel manager takes nothing out of the store but the sync state that it replaces.
use paper_claw.Base.{ℕ, Text, Result, ok, err, Bool-cases, is_empty, inl, inr, ◌≡◌, ap}
use paper_claw.Store.Sql.{Db, Rfc3339}
use paper_claw.Store.Sync.{SyncState, get_sync_state}
use paper_claw.Store.Grows.{
  Grows, Grows-refl, Grows-trans, Grows-tables, put_start_page_token-Grows, put_channel-Grows,
  get_sync_state-Grows,
}
use paper_claw.Serve.ChannelManager.{
  Channel, ChangeDriver, Settings, Managed, Wake, timer, cancelled, stored_token, token_if_missing,
  ensure_start_page_token, is_fresh, stored_channel, register, channel_if_due, ensure_channel,
  read_or_zero, stop, stop_last, waiting, round_from, run_round,
}

module _ (driver : ChangeDriver) (rfc : Rfc3339) (m : Settings) where
  stored_token-Grows :
      (r : Result Text × driver.State) (s : Managed driver.State)
      → Grows s.db (stored_token driver rfc m r s).db
  unfolding stored_token
  stored_token-Grows (err e, d) s = Grows-refl s.db
  stored_token-Grows (ok token, d) s = put_start_page_token-Grows token s.db

  token_if_missing-Grows :
      (r : Result SyncState × Db) (s : Managed driver.State)
      → Grows r.1 (token_if_missing driver rfc m r s).db
  unfolding token_if_missing
  token_if_missing-Grows (err e, db) s = Grows-refl db
  token_if_missing-Grows (ok ss, db) s = elim (Bool-cases (is_empty ss.start_page_token)) [
    | inl e ↦ rw e (stored_token-Grows (driver.get_start_page_token s.drive) (record s { db = db }))
    | inr e ↦ rw e (Grows-refl db)
  ]

  pub ensure_start_page_token-Grows :
      (s : Managed driver.State) → Grows s.db (ensure_start_page_token driver rfc m s).db
  unfolding ensure_start_page_token
  ensure_start_page_token-Grows s =
      Grows-trans (get_sync_state-Grows rfc s.db)
        (token_if_missing-Grows (get_sync_state rfc s.db) s)

  stored_channel-Grows :
      (token : Text) (r : Result Channel × driver.State) (s : Managed driver.State)
      → Grows s.db (stored_channel driver rfc m token r s).db
  unfolding stored_channel
  stored_channel-Grows token (err e, d) s = Grows-refl s.db
  stored_channel-Grows token (ok c, d) s =
      put_channel-Grows rfc c.assigned_id token c.resource_id c.expires_at s.db

  register-Grows :
      (ss : SyncState) (s : Managed driver.State) → Grows s.db (register driver rfc m ss s).db
  unfolding register
  register-Grows ss s = stored_channel-Grows _ _ s

  channel_if_due-Grows :
      (now : ℕ) (r : Result SyncState × Db) (s : Managed driver.State)
      → Grows r.1 (channel_if_due driver rfc m now r s).db
  unfolding channel_if_due
  channel_if_due-Grows now (err e, db) s = Grows-refl db
  channel_if_due-Grows now (ok ss, db) s = elim (Bool-cases (is_fresh driver rfc m now ss)) [
    | inl e ↦ rw e (Grows-refl db)
    | inr e ↦ elim (Bool-cases (is_empty ss.start_page_token)) [
      | inl f ↦ rw (e, f) (Grows-refl db)
      | inr f ↦ rw (e, f) (register-Grows ss (record s { db = db }))
    ]
  ]

  pub ensure_channel-Grows :
      (now : ℕ) (s : Managed driver.State) → Grows s.db (ensure_channel driver rfc m now s).db
  unfolding ensure_channel
  ensure_channel-Grows now s =
      Grows-trans (get_sync_state-Grows rfc s.db)
        (channel_if_due-Grows now (get_sync_state rfc s.db) s)

  stop-db : (ss : SyncState) (s : Managed driver.State) → (stop driver rfc m ss s).db ≡ s.db
  stop-db ss s = elim (Bool-cases (is_empty ss.channel_id)) [ inl e ↦ rw e | inr e ↦ rw e ]

  stop_last-Grows :
      (r : Result SyncState × Db) (s : Managed driver.State)
      → Grows r.1 (stop_last driver rfc m r s).db
  unfolding stop_last
  stop_last-Grows (err e, db) s = Grows-refl db
  stop_last-Grows (ok ss, db) s = rw (stop-db ss (record s { db = db })) (Grows-refl db)

  round_from-Grows :
      (now : ℕ) (wake : Wake) (r : Result SyncState × Db) (s : Managed driver.State)
      → Grows r.1 (round_from driver rfc m now wake r s).1.db
  unfolding round_from
  round_from-Grows now cancelled (r, db) s =
      Grows-trans (get_sync_state-Grows rfc db) (stop_last-Grows (get_sync_state rfc db) _)
  round_from-Grows now (timer later) (r, db) s =
      let s' = waiting driver rfc m now (r, db) s in
      let stopped = stop driver rfc m (read_or_zero driver rfc m r) s' in
      let same : stopped.db ≡ db = stop-db (read_or_zero driver rfc m r) s' in
      Grows-trans (Grows-tables db stopped.db (ap (λ d. d.tables) same))
        (ensure_channel-Grows later stopped)

  -- A round keeps the dedup index and the row of the run status.
  pub run_round-Grows :
      (now : ℕ) (wake : Wake) (s : Managed driver.State)
      → Grows s.db (run_round driver rfc m now wake s).1.db
  unfolding run_round
  run_round-Grows now wake s =
      Grows-trans (get_sync_state-Grows rfc s.db)
        (round_from-Grows now wake (get_sync_state rfc s.db) s)

-- ===== src/Serve/ChannelManager/Registers.antt =====
-- When `ensureChannel` registers a channel, and what the store holds behind it.
use paper_claw.Base.{
  ℕ, Error, Result, ok, err, true, List, [], ◌∷◌, is_empty, ◌≡◌, refl, ◌∙◌, inl, inr, Bool-cases,
}
use paper_claw.Store.Sql.{Db, Rfc3339}
use paper_claw.Store.Sync.{
  SyncState, sync_of, get_sync_state, get_sync_state-ok, get_sync_state-tables, sync_of-tables,
}
use paper_claw.Serve.ChannelManager.{
  ChangeDriver, Settings, Managed, Wake, timer, cancelled, token_if_missing,
  ensure_start_page_token, is_fresh, stored_token, channel_if_due, ensure_channel, stop, stop_last,
  round_from, run_round, run_rounds, run, read_or_zero,
}

module _ (driver : ChangeDriver) (rfc : Rfc3339) (m : Settings) where
  -- Drive and the tables are as they were.
  pub record IsUntouched (s s' : Managed driver.State) : Type 0 where
    pub drive : s'.drive ≡ s.drive
    pub tables : s'.db.tables ≡ s.db.tables

  -- No start page token is stored, and no channel.
  pub record IsUnset (s : Managed driver.State) : Type 0 where
    pub no_token : is_empty (sync_of rfc s.db).start_page_token ≡ true
    pub no_channel : is_empty (sync_of rfc s.db).channel_id ≡ true

  channel_if_due-IsUntouched :
      (now : ℕ) (r : Result SyncState × Db) (s : Managed driver.State)
      → r.1.tables ≡ s.db.tables
      → ((ss : SyncState) → r.0 ≡ ok ss → is_empty ss.start_page_token ≡ true)
      → IsUntouched s (channel_if_due driver rfc m now r s)
  unfolding channel_if_due
  channel_if_due-IsUntouched now (err e, db) s t h = record { drive = refl; tables = t }
  channel_if_due-IsUntouched now (ok ss, db) s t h =
      elim (Bool-cases (is_fresh driver rfc m now ss)) [
        | inl fresh ↦ record { drive = rw fresh; tables = rw fresh t }
        | inr due ↦ record { drive = rw (due, h ss refl); tables = rw (due, h ss refl) t }
      ]

  -- Without a start page token `ensureChannel` does nothing.
  ensure_channel-IsUntouched :
      (now : ℕ) (s : Managed driver.State)
      → is_empty (sync_of rfc s.db).start_page_token ≡ true
      → IsUntouched s (ensure_channel driver rfc m now s)
  unfolding ensure_channel
  ensure_channel-IsUntouched now s e =
      channel_if_due-IsUntouched now (get_sync_state rfc s.db) s (get_sync_state-tables rfc s.db)
        (λ ss p. rw (get_sync_state-ok rfc s.db ss p) e)

  -- Nothing is stopped where no channel is stored.
  stop_none :
      (r : Result SyncState) (s : Managed driver.State)
      → ((ss : SyncState) → r ≡ ok ss → is_empty ss.channel_id ≡ true)
      → stop driver rfc m (read_or_zero driver rfc m r) s ≡ s
  stop_none (err e) s h = refl
  stop_none (ok ss) s h = rw (h ss refl)

  stop_last-IsUntouched :
      (r : Result SyncState × Db) (s : Managed driver.State)
      → r.1.tables ≡ s.db.tables
      → ((ss : SyncState) → r.0 ≡ ok ss → is_empty ss.channel_id ≡ true)
      → IsUntouched s (stop_last driver rfc m r s)
  unfolding stop_last
  stop_last-IsUntouched (err e, db) s t h = record { drive = refl; tables = t }
  stop_last-IsUntouched (ok ss, db) s t h = rw (h ss refl) (record { drive = refl; tables = t })

  round_from-IsUntouched :
      (now : ℕ) (wake : Wake) (r : Result SyncState × Db) (s : Managed driver.State)
      → r.1.tables ≡ s.db.tables
      → ((ss : SyncState) → r.0 ≡ ok ss → ss ≡ sync_of rfc s.db)
      → IsUnset s
      → IsUntouched s (round_from driver rfc m now wake r s).1
  unfolding round_from
  round_from-IsUntouched now cancelled (r, db) s t h unset =
      let last =
        stop_last-IsUntouched (get_sync_state rfc db) (record s { db = db; waits = _ ∷ s.waits })
          (get_sync_state-tables rfc db)
          (λ ss p.
            rw (get_sync_state-ok rfc db ss p, sync_of-tables rfc db s.db t) unset.no_channel) in
      record { drive = last.drive; tables = last.tables ∙ t }
  round_from-IsUntouched now (timer later) (r, db) s t h unset =
      rw (stop_none r _ (λ ss p. rw (h ss p) unset.no_channel)) (
        let after =
          ensure_channel-IsUntouched later (record s { db = db; waits = _ ∷ s.waits })
            (rw (sync_of-tables rfc db s.db t) unset.no_token) in
        record { drive = after.drive; tables = after.tables ∙ t })

  run_rounds-IsUntouched :
      (rounds : List (ℕ × Wake)) (s : Managed driver.State)
      → IsUnset s
      → IsUntouched s (run_rounds driver rfc m rounds s)
  unfolding run_rounds run_round
  run_rounds-IsUntouched [] s unset = record { drive = refl; tables = refl }
  run_rounds-IsUntouched ((now, wake) ∷ rounds) s unset =
      let next = (round_from driver rfc m now wake (get_sync_state rfc s.db) s).1 in
      let one =
        round_from-IsUntouched now wake (get_sync_state rfc s.db) s (get_sync_state-tables rfc s.db)
          (get_sync_state-ok rfc s.db) unset in
      let same = sync_of-tables rfc next.db s.db one.tables in
      let rest =
        run_rounds-IsUntouched rounds next
          (record { no_token = rw same unset.no_token; no_channel = rw same unset.no_channel }) in
      elim (Bool-cases (round_from driver rfc m now wake (get_sync_state rfc s.db) s).0) [
        | inl again ↦
            rw again (record { drive = rest.drive ∙ one.drive; tables = rest.tables ∙ one.tables })
        | inr ended ↦ rw ended one
      ]

  token_if_missing-failed :
      (e : Error) (d : driver.State) (r : Result SyncState × Db) (s : Managed driver.State)
      → driver.get_start_page_token s.drive ≡ (err e, d)
      → r.1.tables ≡ s.db.tables
      → (token_if_missing driver rfc m r s).db.tables ≡ s.db.tables
  unfolding token_if_missing stored_token
  token_if_missing-failed e d (err c, db) s f t = t
  token_if_missing-failed e d (ok ss, db) s f t = elim (Bool-cases (is_empty ss.start_page_token)) [
    | inl missing ↦ rw (missing, f) t
    | inr there ↦ rw there t
  ]

  -- If Drive refuses the start page token when `Run` begins, as it does before the OAuth flow is
  -- completed, and neither a token nor a channel is stored, then `Run` never asks for a token
  -- again: in no later round, however many there are, does it change the stored sync state.
  pub run-never_registers :
      (now : ℕ) (rounds : List (ℕ × Wake)) (s : Managed driver.State) (e : Error) (d : driver.State)
      → IsUnset s
      → driver.get_start_page_token s.drive ≡ (err e, d)
      → sync_of rfc (run driver rfc m now rounds s).db ≡ sync_of rfc s.db
  unfolding run ensure_start_page_token
  run-never_registers now rounds s e d unset f =
      let t = token_if_missing driver rfc m (get_sync_state rfc s.db) s in
      let same : t.db.tables ≡ s.db.tables =
        token_if_missing-failed e d (get_sync_state rfc s.db) s f
          (get_sync_state-tables rfc s.db) in
      let u =
        ensure_channel-IsUntouched now t (rw (sync_of-tables rfc t.db s.db same) unset.no_token) in
      let v = ensure_channel driver rfc m now t in
      let still = sync_of-tables rfc v.db s.db (u.tables ∙ same) in
      let rest =
        run_rounds-IsUntouched rounds v
          (record { no_token = rw still unset.no_token; no_channel = rw still unset.no_channel }) in
      elim (Bool-cases (is_empty m.webhook_url)) [
        | inl off ↦ rw off
        | inr on ↦ rw on (sync_of-tables rfc _ s.db (rest.tables ∙ (u.tables ∙ same)))
      ]

-- ===== src/Serve/ChannelManager/Renewal.antt =====
-- The waits of `Run`: a renewal is due when its timer fires, and a failing one is tried at once.
use paper_claw.Base.{
  ℕ, suc, ◌+◌, ◌≤◌, Error, ok, err, true, false, List, [], ◌∷◌, is_empty, ltb, ◌≡◌, ◌≢◌, refl, ◌∙◌,
  ap, inl, inr, arith, Bool-cases, All, map,
}
use paper_claw.Serve.RandomHex.{random_hex}
use paper_claw.Store.Sql.{Rfc3339, Works}
use paper_claw.Store.Sync.{SyncState, sync_of, get_sync_state-Works}
use paper_claw.Serve.ChannelManager.{
  WatchRequest, ChangeDriver, Settings, Managed, Wake, timer, is_fresh, wait_for, register,
  stored_channel, channel_if_due, ensure_channel, stop, waiting, round_from, run_round, run_rounds,
}

module _ (driver : ChangeDriver) (rfc : Rfc3339) (m : Settings) where
  -- When the timer of a round fires, the channel that the round read is no longer fresh: the
  -- renewal behind it is not skipped.
  pub is_fresh-wait_for :
      (now later : ℕ) (ss : SyncState)
      → now + wait_for driver rfc m now ss ≤ later
      → is_fresh driver rfc m later ss ≡ false
  unfolding wait_for
  is_fresh-wait_for now later ss h = ground arith

  -- Before that the channel is fresh, and nothing would be registered.
  is_fresh-before :
      (now later : ℕ) (ss : SyncState)
      → ss.expires_at ≢ 0
      → is_empty ss.channel_id ≡ false
      → suc later ≤ now + wait_for driver rfc m now ss
      → now ≤ later
      → ltb (now + m.renew_lead_time) ss.expires_at ≡ true
      → is_fresh driver rfc m later ss ≡ true
  unfolding wait_for
  is_fresh-before now later ss e c h le b = ground arith

  -- Drive grants no channel.
  abbrev pub Refuses : Type 0
  Refuses =
      (request : WatchRequest) (d : driver.State)
      → (e : Error) × (d' : driver.State) × (driver.watch_changes request d ≡ (err e, d'))

  -- Store and waits are as they were.
  record IsKept (s s' : Managed driver.State) : Type 0 where
    db : s'.db ≡ s.db
    waits : s'.waits ≡ s.waits

  register_refused :
      Refuses → (ss : SyncState) (s : Managed driver.State) → IsKept s (register driver rfc m ss s)
  unfolding register stored_channel
  register_refused refuses ss s =
      let (channel_id, d') = random_hex driver.rand_read 16 s.drive in
      let (channel_token, d'') = random_hex driver.rand_read 32 d' in
      let (e, d, p) =
        refuses
          (record {
            page_token = ss.start_page_token;
            channel_id = channel_id;
            webhook_url = m.webhook_url;
            channel_token = channel_token;
            ttl = m.channel_ttl;
          })
          d'' in
      rw p (record { db = refl; waits = refl })

  ensure_channel_refused :
      Refuses
      → (now : ℕ) (s : Managed driver.State) → Works s.db
      → IsKept s (ensure_channel driver rfc m now s)
  unfolding ensure_channel channel_if_due
  ensure_channel_refused refuses now s works =
      let ss = sync_of rfc s.db in
      rw (get_sync_state-Works rfc s.db works) (elim (Bool-cases (is_fresh driver rfc m now ss)) [
        | inl fresh ↦ rw fresh (record { db = refl; waits = refl })
        | inr due ↦ elim (Bool-cases (is_empty ss.start_page_token)) [
          | inl missing ↦ rw (due, missing) (record { db = refl; waits = refl })
          | inr there ↦ rw (due, there) (register_refused refuses ss s)
        ]
      ])

  stop-IsKept : (ss : SyncState) (s : Managed driver.State) → IsKept s (stop driver rfc m ss s)
  stop-IsKept ss s = record { db = ground arith; waits = ground arith }

  -- The times at which a round begins and its timer fires.
  abbrev pub fired : ℕ × ℕ → ℕ × Wake
  fired (now, later) = (now, timer later)

  abbrev pub zeros : List (ℕ × ℕ) → List ℕ → List ℕ
  zeros [] waits = waits
  zeros (t ∷ ts) waits = zeros ts (0 ∷ waits)

  run_round_refused :
      Refuses
      → (now later : ℕ) (s : Managed driver.State) → Works s.db
      → (sync_of rfc s.db).expires_at ≢ 0
      → (sync_of rfc s.db).expires_at ≤ now + m.renew_lead_time
      → ((run_round driver rfc m now (timer later) s).0 ≡ true)
        × ((run_round driver rfc m now (timer later) s).1.db ≡ s.db)
        × ((run_round driver rfc m now (timer later) s).1.waits ≡ 0 ∷ s.waits)
  unfolding run_round round_from
  run_round_refused refuses now later s works there late =
      let ss = sync_of rfc s.db in
      let s' = waiting driver rfc m now (ok ss, s.db) s in
      let t = stop driver rfc m ss s' in
      let stopped = stop-IsKept ss s' in
      let tried = ensure_channel_refused refuses later t (rw stopped.db works) in
      rw (get_sync_state-Works rfc s.db works) (
        refl,
        tried.db ∙ stopped.db,
        tried.waits ∙ (stopped.waits ∙ (unfold wait_for in ground arith)),
      )

  -- Once the stored channel is inside its renewal window, every wait of `Run` is zero for as long
  -- as Drive refuses a new channel: the loop retries with no pause.
  pub run_rounds_refused :
      Refuses
      → (times : List (ℕ × ℕ)) (s : Managed driver.State) → Works s.db
      → (sync_of rfc s.db).expires_at ≢ 0
      → All (λ t. (sync_of rfc s.db).expires_at ≤ t.0 + m.renew_lead_time) times
      → (run_rounds driver rfc m (map fired times) s).waits ≡ zeros times s.waits
  unfolding run_rounds
  run_rounds_refused refuses [] s works there late = refl
  run_rounds_refused refuses ((now, later) ∷ times) s works there (l, late) =
      let s' = (run_round driver rfc m now (timer later) s).1 in
      let (again, db, waits) = run_round_refused refuses now later s works there l in
      let rest = run_rounds_refused refuses times s' (rw db works) (rw db there) (rw db late) in
      rw again (rest ∙ ap (zeros times) waits)

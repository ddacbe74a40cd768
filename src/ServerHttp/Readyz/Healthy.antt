-- ===== src/ServerHttp/Readyz/Healthy.antt =====
-- When the readiness probe says that the daemon is ready, and what it reports.
use paper_claw.Base.{
  ℕ, Text, Bool, true, false, Option, none, some, Result, ok, err, ap, ◌∙◌, ◌≡◌, ◌⊎◌, refl, arith,
  inl, inr,
}
use paper_claw.Store.Sql.{Db, Rfc3339, Works}
use paper_claw.Store.DaemonStatus.{
  DaemonStatus, status_of, get_status, get_status-tables, get_status-Works,
}
use paper_claw.Store.Token.{get_token-tables, get_token-Works}
use paper_claw.ServerHttp.Readyz.{
  Body, Answer, reported, bool_status, report, status_body, drive_authenticated, token_there,
  handle_readyz,
}

-- A token is stored.
abbrev pub HasToken : Option Text → Type 0
HasToken token = (raw : Text) × (token ≡ some raw)

-- The daemon is ready: a token is stored and the last probe succeeded.
abbrev pub IsReady : Bool → Option Text → Type 0
IsReady anthropic token = HasToken token × (anthropic ≡ true)

-- What the handler answers: 200 if the daemon is ready, and 503 if not; the body has the status'
-- counters and its last error, and says which of the two is missing.
pub record Reports (anthropic : Bool) (token : Option Text) (st : DaemonStatus) (a : Answer)
    : Type 0 where
  pub body : Body
  pub code : ℕ
  pub is_reported : a ≡ reported code body
  pub verdict :
      (IsReady anthropic token × (code ≡ 200)) ⊎ (¬ IsReady anthropic token × (code ≡ 503))
  pub processed_count : body.processed ≡ st.processed
  pub skipped_count : body.skipped ≡ st.skipped
  pub quarantine_count : body.quarantine ≡ st.quarantine
  pub error : body.last_error ≡ st.last_error
  pub anthropic_field : body.anthropic ≡ bool_status anthropic
  pub drive_field :
      (HasToken token × (body.drive ≡ bool_status true))
      ⊎ (¬ HasToken token × (body.drive ≡ bool_status false))

module _ (rfc : Rfc3339) (st : DaemonStatus) (db : Db) where
  no_token : ¬ HasToken none
  no_token (raw, e) = cc

  report-Reports :
      (anthropic : Bool) (token : Option Text)
      → Reports anthropic token st (report rfc (token_there (ok token)) anthropic (ok st, db)).0
  unfolding report token_there status_body
  report-Reports anthropic none = record {
    body = status_body rfc false anthropic st;
    code = 503;
    is_reported = refl;
    verdict = inr ((λ r. no_token r.0), refl);
    processed_count = refl;
    skipped_count = refl;
    quarantine_count = refl;
    error = refl;
    anthropic_field = refl;
    drive_field = inr (no_token, refl);
  }
  report-Reports false (some raw) = record {
    body = status_body rfc true false st;
    code = 503;
    is_reported = refl;
    verdict = inr ((λ r. absurd (ground (arith, r.1))), refl);
    processed_count = refl;
    skipped_count = refl;
    quarantine_count = refl;
    error = refl;
    anthropic_field = refl;
    drive_field = inl ((raw, refl), refl);
  }
  report-Reports true (some raw) = record {
    body = status_body rfc true true st;
    code = 200;
    is_reported = refl;
    verdict = inl (((raw, refl), refl), refl);
    processed_count = refl;
    skipped_count = refl;
    quarantine_count = refl;
    error = refl;
    anthropic_field = refl;
    drive_field = inl ((raw, refl), refl);
  }

-- In a store that works, `/readyz` answers 200 exactly if a token is stored and the last probe of the
-- API succeeded, and else 503; its body has the counters and the last error of the run status.
pub handle_readyz-Reports :
    (rfc : Rfc3339) (anthropic : Bool) (db : Db)
    → Works db
    → Reports anthropic db.tables.oauth_token (status_of rfc db) (handle_readyz rfc anthropic db).0
unfolding handle_readyz drive_authenticated
handle_readyz-Reports rfc anthropic db works =
    rw (get_token-Works db works, get_status-Works rfc db works)
      (report-Reports rfc (status_of rfc db) db anthropic db.tables.oauth_token)

report-db :
    (rfc : Rfc3339) (drive anthropic : Bool) (r : Result DaemonStatus × Db)
    → (report rfc drive anthropic r).1 ≡ r.1
unfolding report
report-db rfc drive anthropic (err e, db) = refl
report-db rfc drive anthropic (ok status, db) = refl

-- The readiness probe only reads the store.
pub handle_readyz-tables :
    (rfc : Rfc3339) (anthropic : Bool) (db : Db)
    → (handle_readyz rfc anthropic db).1.tables ≡ db.tables
unfolding handle_readyz drive_authenticated
handle_readyz-tables rfc anthropic db =
    let db' = (drive_authenticated db).1 in
    ap (λ d. d.tables) (report-db rfc (drive_authenticated db).0 anthropic (get_status rfc db'))
    ∙ get_status-tables rfc db'
    ∙ get_token-tables db

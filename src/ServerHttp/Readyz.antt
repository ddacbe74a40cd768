-- ===== src/ServerHttp/Readyz.antt =====
-- internal/serverhttp/server.go: the probes of liveness and readiness, and the provider that
-- cmd/paperclaw/serve.go gives them. The JSON encoder is left out: an answer holds the body's fields.
pub mod Healthy
use paper_claw.Base.{
  ℕ, Text, codes, Error, Result, ok, err, Bool, true, false, not, ◌||◌, Option, none, some, [],
  ◌++◌, ◌==◌, if◌then◌else◌,
}
use paper_claw.Store.Sql.{Db, Rfc3339}
use paper_claw.Store.DaemonStatus.{DaemonStatus, get_status}
use paper_claw.Store.Token.{get_token}

-- `readyzBody`; a time or an error that is left out is the empty text.
pub record Body : Type 0 where
  pub drive : Text
  pub anthropic : Text
  pub last_poll_at : Text
  pub processed : ℕ
  pub skipped : ℕ
  pub quarantine : ℕ
  pub last_error : Text

pub data Answer : Type 0 where
  failed : ℕ → Error → Answer
  reported : ℕ → Body → Answer

abbrev pub code_of : Answer → ℕ
code_of (failed code e) = code
code_of (reported code body) = code

abbrev pub handle_healthz : ℕ
handle_healthz = 200

abbrev pub bool_status : Bool → Text
bool_status healthy = if healthy then codes "ok" else codes "unavailable"

status_body : Rfc3339 → Bool → Bool → DaemonStatus → Body
status_body rfc drive anthropic status = record {
  drive = bool_status drive;
  anthropic = bool_status anthropic;
  last_poll_at = if status.last_poll_at == 0 then [] else rfc.format status.last_poll_at;
  processed = status.processed;
  skipped = status.skipped;
  quarantine = status.quarantine;
  last_error = status.last_error;
}

report : Rfc3339 → Bool → Bool → Result DaemonStatus × Db → Answer × Db
unfolding status_body
report rfc drive anthropic (err e, db) = (failed 500 (codes "reading status: " ++ e), db)
report rfc drive anthropic (ok status, db) = (
  reported (if not drive || not anthropic then 503 else 200)
      (status_body rfc drive anthropic status),
  db,
)

-- `serveReadyzProvider.DriveAuthenticated`: a token can be read and is there.
token_there : Result (Option Text) → Bool
token_there (err e) = false
token_there (ok none) = false
token_there (ok (some raw)) = true

unfoldable pub drive_authenticated : Db → Bool × Db
unfolding token_there
drive_authenticated db = let (read, db') = get_token db in (token_there read, db')

-- `handleReadyz` with that provider; `anthropic` is what the prober holds.
unfoldable pub handle_readyz : Rfc3339 → Bool → Db → Answer × Db
unfolding report
handle_readyz rfc anthropic db =
    let (drive, db') = drive_authenticated db in report rfc drive anthropic (get_status rfc db')

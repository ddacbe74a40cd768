-- ===== src/DriveClient/Changes.antt =====
-- internal/storage/drive/changes.go: the calls of the changes API, over the Drive storage with the
-- client of DriveClient.antt.
use paper_claw.Base.{
  ℕ, ◌+◌, ◌-◌, ◌*◌, ◌/◌, ◌^◌, Text, codes, Error, Result, ok, error_of, Method, Option, ◌++◌,
}
use paper_claw.Base.Methods.{◌>>=◌, relabel}
use paper_claw.Document.Metadata.{Metadata}
use paper_claw.Store.Sql.{Rfc3339}
use paper_claw.DriveStorage.{ErrorRecord, Service, Drive, State, on_remote, drive_client}
use paper_claw.Serve.ChannelManager.{Channel, WatchRequest}
use paper_claw.DriveClient.{NewChannel, Granted, Api, drive_service}

-- The Unix epoch, in nanoseconds from Go's zero time.
abbrev pub epoch : ℕ
epoch = 62135596800 * 10 ^ 9

-- `t.UnixMilli()`, for a time after 1970, and `time.UnixMilli(ms)`.
unfoldable pub unix_milli : ℕ → ℕ
unix_milli t = (t - epoch) / 10 ^ 6

unfoldable pub from_milli : ℕ → ℕ
from_milli ms = epoch + ms * 10 ^ 6

abbrev pub granted_channel : Granted → Channel
granted_channel g = record {
  assigned_id = g.id;
  resource_id = g.resource_id;
  expires_at = from_milli g.expiration;
}

module _ (A : Api) (fuel : ℕ) (rfc : Rfc3339) (marshal_metadata : Metadata → Result Text)
    (marshal_error : ErrorRecord → Result Text) where
  -- The Drive service of the storage.
  abbrev pub G : Service
  G = drive_service A fuel rfc marshal_metadata marshal_error

  module _ (d : Drive G) where
    unfoldable pub get_start_page_token : Method (State G) Text
    get_start_page_token = drive_client G d >>= λ c s.
        relabel (codes "drive: getting start page token: ") (on_remote (A.start_page_token c) s)

    new_channel : WatchRequest → ℕ → NewChannel
    new_channel r now = record {
      id = r.channel_id;
      address = r.webhook_url;
      token = r.channel_token;
      expiration = unix_milli (now + r.ttl);
    }

    watched : WatchRequest → A.Svc → Method (State G) Granted
    unfolding new_channel
    watched r c s =
        relabel (codes "drive: watching changes: ")
          (on_remote (A.watch c r.page_token (new_channel r (A.now s.remote))) s)

    unfoldable pub watch_changes : WatchRequest → Method (State G) Channel
    unfolding watched
    watch_changes r = drive_client G d >>= λ c. watched r c >>= λ g s. (ok (granted_channel g), s)

    stopped : Result (Unit {0}) × State G → Option Error × State G
    stopped (r, s) = (error_of r, s)

    unfoldable pub stop_channel : Text → Text → State G → Option Error × State G
    unfolding stopped
    stop_channel channel_id resource_id s = stopped (
        (drive_client G d >>= λ c s.
        relabel (codes "drive: stopping channel " ++ (channel_id ++ codes ": "))
          (on_remote (A.stop c channel_id resource_id) s))
          s)

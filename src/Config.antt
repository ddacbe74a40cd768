-- ===== src/Config.antt =====
-- internal/config/config.go: `Load`, `applyDefaults` and `loadSecrets`.
-- Reading the file, the YAML decoder and the environment variables are parameters. Durations are
-- nanoseconds, and not negative.
pub mod Complete
use paper_claw.Base.{
  ℕ, ◌*◌, ◌^◌, Text, codes, Error, Result, ok, err, List, [], ◌∷◌, ◌++◌, is_empty, ◌==◌,
  if◌then◌else◌,
}
use paper_claw.Document.Metadata.{join}

pub record HttpConfig : Type 0 where
  pub bind_addr : Text
  pub public_base_url : Text

pub record DriveConfig : Type 0 where
  pub inbox_folder_id : Text
  pub library_folder_id : Text
  pub processed_folder_id : Text

pub record OauthConfig : Type 0 where
  pub client_id : Text
  pub redirect_path : Text

pub record PollConfig : Type 0 where
  pub interval : ℕ
  pub stable_threshold : ℕ

pub record WebhookConfig : Type 0 where
  pub channel_ttl : ℕ
  pub renew_lead_time : ℕ

-- `state_dir` and `log_level` are the only fields of `StateConfig` and `LogConfig`.
pub record Config : Type 0 where
  pub http : HttpConfig
  pub drive : DriveConfig
  pub oauth : OauthConfig
  pub poll : PollConfig
  pub state_dir : Text
  pub log_level : Text
  pub webhook : WebhookConfig

pub record Secrets : Type 0 where
  pub oauth_client_secret : Text
  pub anthropic_api_key : Text

abbrev pub second : ℕ
second = 10 ^ 9

text_or : Text → Text → Text
text_or s default = if is_empty s then default else s

number_or : ℕ → ℕ → ℕ
number_or n default = if n == 0 then default else n

unfoldable pub apply_defaults : Config → Config
unfolding text_or number_or
apply_defaults cfg = record cfg {
  http = record cfg.http { bind_addr = text_or cfg.http.bind_addr (codes ":8080") };
  poll = record {
    interval = number_or cfg.poll.interval (5 * 60 * second);
    stable_threshold = number_or cfg.poll.stable_threshold (30 * second);
  };
  log_level = text_or cfg.log_level (codes "info");
  webhook = record {
    channel_ttl = number_or cfg.webhook.channel_ttl (7 * 24 * 60 * 60 * second);
    renew_lead_time = number_or cfg.webhook.renew_lead_time (60 * 60 * second);
  };
  oauth = record cfg.oauth {
    redirect_path = text_or cfg.oauth.redirect_path (codes "/oauth/callback");
  };
}

-- `if value == "" { missing = append(missing, name) }`
require : Text → Text → List Text → List Text
require value name missing = if is_empty value then missing ++ name ∷ [] else missing

unfoldable pub load_secrets : (Text → Text) → Secrets × List Text
unfolding require
load_secrets getenv =
    let secret = getenv (codes "OAUTH_CLIENT_SECRET") in
    let key = getenv (codes "ANTHROPIC_API_KEY") in
    let missing = require secret (codes "env OAUTH_CLIENT_SECRET is required") [] in
    (
      record { oauth_client_secret = secret; anthropic_api_key = key },
      require key (codes "env ANTHROPIC_API_KEY is required") missing,
    )

-- The names that `Load` collects, in its order.
unfoldable pub missing_fields : Config → (Text → Text) → List Text
unfolding require load_secrets
missing_fields cfg getenv =
    let m1 = require cfg.http.public_base_url (codes "http.public_base_url") [] in
    let m2 = require cfg.drive.inbox_folder_id (codes "drive.inbox_folder_id") m1 in
    let m3 = require cfg.drive.library_folder_id (codes "drive.library_folder_id") m2 in
    let m4 = require cfg.drive.processed_folder_id (codes "drive.processed_folder_id") m3 in
    let m5 = require cfg.oauth.client_id (codes "oauth.client_id") m4 in
    let m6 = require cfg.state_dir (codes "state.dir") m5 in m6 ++ (load_secrets getenv).1

abbrev pub validation_error : List Text → Error
validation_error missing = codes "config validation errors:\n  " ++ join (codes "\n  ") missing

validated : Config → (Text → Text) → Result (Config × Secrets)
validated cfg getenv =
    let missing = missing_fields cfg getenv in
    if is_empty missing then ok (cfg, (load_secrets getenv).0) else err (validation_error missing)

parsed : (Text → Text) → Result Config → Result (Config × Secrets)
unfolding validated
parsed getenv (err e) = err (codes "parsing config: " ++ e)
parsed getenv (ok cfg) = validated (apply_defaults cfg) getenv

-- `file` is what `os.ReadFile` returned.
unfoldable pub load :
    (Text → Result Config) → (Text → Text) → Result Text → Result (Config × Secrets)
unfolding parsed
load unmarshal getenv (err e) = err (codes "reading config: " ++ e)
load unmarshal getenv (ok file) = parsed getenv (unmarshal file)

-- ===== src/Config/Complete.antt =====
-- What a loaded configuration has, and what the validation error lists.
use mathlib.Core.Path.{ap₂}
use paper_claw.Base.{
  ℕ, Text, codes, Result, ok, err, List, [], ◌∷◌, ◌++◌, is_empty, if◌then◌else◌, ◌≡◌, ◌≢◌, refl,
  sym, arith, append_assoc, append-nil, ◌∙◌, All,
}
use paper_claw.Config.{
  Config, Secrets, apply_defaults, text_or, number_or, require, load_secrets, missing_fields,
  validation_error, load,
}

-- The fields that must not be empty, under the names that the error gives them.
abbrev pub required : Config → (Text → Text) → List (Text × Text)
required cfg getenv =
    (codes "http.public_base_url", cfg.http.public_base_url)
    ∷ (codes "drive.inbox_folder_id", cfg.drive.inbox_folder_id)
    ∷ (codes "drive.library_folder_id", cfg.drive.library_folder_id)
    ∷ (codes "drive.processed_folder_id", cfg.drive.processed_folder_id)
    ∷ (codes "oauth.client_id", cfg.oauth.client_id)
    ∷ (codes "state.dir", cfg.state_dir)
    ∷ (codes "env OAUTH_CLIENT_SECRET is required", getenv (codes "OAUTH_CLIENT_SECRET"))
    ∷ (codes "env ANTHROPIC_API_KEY is required", getenv (codes "ANTHROPIC_API_KEY"))
    ∷ []

-- The names of the empty ones.
pub empty_names : List (Text × Text) → List Text
empty_names [] = []
empty_names ((name, value) ∷ fields) =
    let rest = empty_names fields in if is_empty value then name ∷ rest else rest

-- The run of `if` statements over a list of fields.
require_all : List (Text × Text) → List Text → List Text
require_all [] missing = missing
require_all ((name, value) ∷ fields) missing = require_all fields (require value name missing)

require_all-empty_names :
    (fields : List (Text × Text)) (missing : List Text)
    → require_all fields missing ≡ missing ++ empty_names fields
unfolding require_all empty_names require
require_all-empty_names [] missing = sym (append-nil missing)
require_all-empty_names ((name, value) ∷ fields) missing =
    rw (require_all-empty_names fields)
      (ground (arith, append_assoc missing (name ∷ []) (empty_names fields)))

empty_names-append :
    (fields more : List (Text × Text))
    → empty_names (fields ++ more) ≡ empty_names fields ++ empty_names more
unfolding empty_names
empty_names-append [] more = refl
empty_names-append ((name, value) ∷ fields) more = ground (arith, empty_names-append fields more)

missing_fields-empty_names :
    (cfg : Config) (getenv : Text → Text)
    → missing_fields cfg getenv ≡ empty_names (required cfg getenv)
unfolding missing_fields require_all
missing_fields-empty_names cfg getenv =
    let fields : List (Text × Text) =
      (codes "http.public_base_url", cfg.http.public_base_url)
      ∷ (codes "drive.inbox_folder_id", cfg.drive.inbox_folder_id)
      ∷ (codes "drive.library_folder_id", cfg.drive.library_folder_id)
      ∷ (codes "drive.processed_folder_id", cfg.drive.processed_folder_id)
      ∷ (codes "oauth.client_id", cfg.oauth.client_id)
      ∷ (codes "state.dir", cfg.state_dir)
      ∷ [] in
    let secrets : List (Text × Text) =
      (codes "env OAUTH_CLIENT_SECRET is required", getenv (codes "OAUTH_CLIENT_SECRET"))
      ∷ (codes "env ANTHROPIC_API_KEY is required", getenv (codes "ANTHROPIC_API_KEY"))
      ∷ [] in
    ap₂ ◌++◌ (require_all-empty_names fields []) (require_all-empty_names secrets [])
    ∙ sym (empty_names-append fields secrets)

-- A YAML file that parses is loaded exactly if, after the defaults, no required field and no secret
-- is empty. Otherwise the error lists the names of all the empty ones, in order, and nothing else.
pub load_lem :
    (unmarshal : Text → Result Config) (getenv : Text → Text) (file : Text) (raw : Config)
    → unmarshal file ≡ ok raw
    → let cfg = apply_defaults raw in
      let names = empty_names (required cfg getenv) in
      load unmarshal getenv (ok file)
      ≡ (if is_empty names then ok (cfg, (load_secrets getenv).0) else err (validation_error names))
unfolding load
load_lem unmarshal getenv file raw e =
    rw (e, missing_fields-empty_names (apply_defaults raw) getenv)

empty_names-All :
    (fields : List (Text × Text)) → empty_names fields ≡ [] → All (λ f. f.1 ≢ []) fields
unfolding empty_names
empty_names-All [] h = tt
empty_names-All ((name, []) ∷ fields) h = cc
empty_names-All ((name, c ∷ s) ∷ fields) h = (cc, empty_names-All fields h)

-- What the daemon relies on: every required field and secret, and every field with a default.
pub record IsComplete (getenv : Text → Text) (cfg : Config) : Type 0 where
  pub present : All (λ f. f.1 ≢ []) (required cfg getenv)
  pub bind_addr : cfg.http.bind_addr ≢ []
  pub redirect_path : cfg.oauth.redirect_path ≢ []
  pub log_level : cfg.log_level ≢ []
  pub interval : cfg.poll.interval ≢ 0
  pub stable_threshold : cfg.poll.stable_threshold ≢ 0
  pub channel_ttl : cfg.webhook.channel_ttl ≢ 0
  pub renew_lead_time : cfg.webhook.renew_lead_time ≢ 0

text_or-ne : (s default : Text) → default ≢ [] → text_or s default ≢ []
unfolding text_or
text_or-ne [] default h = h
text_or-ne (c ∷ s) default h = cc

number_or-ne : (n default : ℕ) → default ≢ 0 → number_or n default ≢ 0
unfolding number_or
number_or-ne n default h = ground arith

-- The defaults fill in what is empty or zero and keep the rest: applied again they change nothing.
apply_defaults_idem : (cfg : Config) → apply_defaults (apply_defaults cfg) ≡ apply_defaults cfg
unfolding apply_defaults
apply_defaults_idem cfg = ground arith

load-eq :
    (unmarshal : Text → Result Config) (getenv : Text → Text) (file : Text) (raw : Result Config)
    (cfg : Config) (secrets : Secrets)
    → unmarshal file ≡ raw
    → load unmarshal getenv (ok file) ≡ ok (cfg, secrets)
    → (c : Config) × (raw ≡ ok c)
      × (cfg ≡ apply_defaults c)
      × (empty_names (required (apply_defaults c) getenv) ≡ [])
load-eq unmarshal getenv file (err e) cfg secrets p h = absurd (unfold load in ground (arith, p))
load-eq unmarshal getenv file (ok c) cfg secrets p h =
    let q = load_lem unmarshal getenv file c p in
    (c, refl, ground (arith, q, h), ground (arith, q, h))

-- A configuration that `Load` returns is complete.
pub load-IsComplete :
    (unmarshal : Text → Result Config) (getenv : Text → Text) (file : Text) (cfg : Config)
    (secrets : Secrets)
    → load unmarshal getenv (ok file) ≡ ok (cfg, secrets)
    → IsComplete getenv cfg
unfolding apply_defaults
load-IsComplete unmarshal getenv file cfg secrets h =
    let (c, _, e, none_empty) = load-eq unmarshal getenv file (unmarshal file) cfg secrets refl h in
    rw e (record {
      present = empty_names-All (required (apply_defaults c) getenv) none_empty;
      bind_addr = text_or-ne c.http.bind_addr _ (cc);
      redirect_path = text_or-ne c.oauth.redirect_path _ (cc);
      log_level = text_or-ne c.log_level _ (cc);
      interval = number_or-ne c.poll.interval _ (omega arith);
      stable_threshold = number_or-ne c.poll.stable_threshold _ (omega arith);
      channel_ttl = number_or-ne c.webhook.channel_ttl _ (omega arith);
      renew_lead_time = number_or-ne c.webhook.renew_lead_time _ (omega arith);
    })

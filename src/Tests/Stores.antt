-- ===== src/Tests/Stores.antt =====
-- The store, the configuration and the OAuth flow.
use paper_claw.Base.{
  ◌*◌, ◌^◌, ◌+◌, ◌≤◌, Text, codes, Result, ok, err, Error, true, Option, none, List, [], ◌∷◌,
  contains, without, if◌then◌else◌, is_empty, ◌≡◌, ◌≢◌, refl, arith,
}
use paper_claw.Store.Sql.{Db, no_tables}
use paper_claw.Store.Documents.{DocumentRecord, count_hash, HasUniqueHashes}
use paper_claw.Config.{Config, apply_defaults, load, load_secrets, validation_error}
use paper_claw.Config.Complete.{required, empty_names, load_lem}
use paper_claw.Oauth.{Oauth2, Flow, handle_callback}
use paper_claw.Oauth.States.{Request, callback, passed, issued, pending, passed-le-issued}
use paper_claw.Oauth.Stored.{IsAuthenticated, handle_callback-IsAuthenticated}
use paper_claw.Tests.Data.{db}

abbrev scanned : DocumentRecord
scanned = record {
  content_hash = codes "bb";
  entry_name = codes "2024-05-01_acme_invoice";
  drive_file_id = codes "f1";
  source_filename = codes "scan.pdf";
  processed_at = 9 * 10 ^ 9;
}

db-HasUniqueHashes : HasUniqueHashes db
unfolding count_hash
db-HasUniqueHashes hash = ground arith

abbrev new_file : Db
new_file = record { tables = no_tables; faults = [] }

abbrev raw_config : Config
raw_config = record {
  http = record { bind_addr = []; public_base_url = codes "https://x" };
  drive = record {
    inbox_folder_id = codes "i";
    library_folder_id = codes "l";
    processed_folder_id = codes "p";
  };
  oauth = record { client_id = codes "id"; redirect_path = [] };
  poll = record { interval = 0; stable_threshold = 5 };
  state_dir = codes "/var";
  log_level = [];
  webhook = record { channel_ttl = 0; renew_lead_time = 0 };
}

abbrev decode : Text → Result Config
decode file = ok raw_config

-- Every secret is set, and none is.
abbrev all_set : Text → Text
all_set name = codes "s"

abbrev unset : Text → Text
unset name = []

load_lem_example : load decode unset (ok (codes "x")) ≡ (
    if is_empty (empty_names (required (apply_defaults raw_config) unset))
    then ok (apply_defaults raw_config, (load_secrets unset).0)
    else err (validation_error (empty_names (required (apply_defaults raw_config) unset))))
load_lem_example = load_lem decode unset (codes "x") raw_config refl

-- Google with tokens that are texts.
abbrev pub google : Oauth2
google = record {
  Token = Text;
  exchange = λ code. ok code;
  marshal = λ tok. ok tok;
  unmarshal = λ raw. ok raw;
  refresh = λ tok. ok tok;
}

abbrev keep_token : Text → Text → Option Error × Text
keep_token tok drive = (none, tok)

abbrev flow : Flow Text
flow = record { db = db; states = codes "s1" ∷ []; drive = []; ready = 0 }

abbrev requests : List Request
requests = callback (codes "s1") (codes "code") ∷ callback (codes "s1") (codes "code") ∷ []

passed-le-issued_example :
    passed google keep_token true (codes "s1") requests flow
    ≤ issued google keep_token true (codes "s1") requests
      + pending google keep_token true (codes "s1") flow
passed-le-issued_example = passed-le-issued google keep_token true (codes "s1") requests flow

handle_callback-IsAuthenticated_example :
    let answer = handle_callback google keep_token true (codes "s1") (codes "code") flow in
    (answer.0 ≢ 200 → answer.1.ready ≡ flow.ready)
    × (answer.0 ≡ 200
        → (contains flow.states (codes "s1") ≡ true)
          × IsAuthenticated google keep_token true
              (codes "code")
              (record flow { states = without (codes "s1") flow.states })
              answer.1)
handle_callback-IsAuthenticated_example =
    handle_callback-IsAuthenticated google keep_token true (codes "s1") (codes "code") flow

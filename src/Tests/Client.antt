-- ===== src/Tests/Client.antt =====
-- The client of the Drive API, on a service with two pages of files and one temporary file.
use paper_claw.Base.{
  ◌&&◌, not, is_empty, if◌then◌else◌, ℕ, Text, codes, ok, err, none, some, List, [], ◌∷◌, ◌++◌,
  contains, without, text_eq, ◌≡◌, ◌≤◌, true, Bool-cases, inl, inr, refl, sym, ap, ◌∙◌, arith,
  ok-injective,
}
use paper_claw.DriveClient.{DriveFile, Page, Api, infos, list_folder, folder_query, download}
use paper_claw.DriveClient.Pages.{Pages, last_page, more_pages, list_folder-Pages}
use paper_claw.DriveClient.Temporary.{Temps, Kept, download-Kept}
use paper_claw.DriveStorage.{FileInfo, State, set_http_client, keep_client, pure}
use paper_claw.Config.{Config, load, missing_fields, apply_defaults, load_secrets}
use paper_claw.Oauth.{Flow, handle_callback, token_source}
use paper_claw.Store.Token.{put_token, get_token}
use paper_claw.Store.Migrate.{open_store, migrate}
use paper_claw.Store.Sql.{Db, exec, statement, query}
use paper_claw.Base.Methods.{◌>>=◌}
use paper_claw.Daemon.{set_client, restored}
use paper_claw.Telemetry.Setup.{exporting, all_work, setup, untouched}
use paper_claw.Telemetry.Instruments.{init}
use paper_claw.Daemon.Start.Exporting.{is_loaded, start-telemetry}
use paper_claw.Daemon.Start.{Boot, Started, start}
use paper_claw.Daemon.Start.Opened.{IsStarted, start-IsStarted}
use paper_claw.Daemon.Connected.{IsConnected, handle_callback-IsConnected}
use paper_claw.Tests.Drives
use paper_claw.Tests.Stores.{google}
use paper_claw.Tests.Data.{seconds, db, tables}

abbrev file : Text → DriveFile
file name = record { id = name; name = name; size = 1; modified_time = []; md5_checksum = name }

-- The second page has no successor.
abbrev page : Text → Page
page [] = record { files = file (codes "a") ∷ []; next_page_token = codes "2" }
page (c ∷ token) = record { files = file (codes "b") ∷ []; next_page_token = [] }

-- A name that is not among the temporary files: longer than all of them.
abbrev longer : List Text → Text
longer [] = codes "t"
longer (t ∷ ts) = b't' ∷ (t ++ longer ts)

abbrev service : Api
service = record {
  Remote = List Text;
  Http = Unit;
  Svc = Unit;
  Body = Unit;
  now = λ s. 1000;
  new_service = λ http. ok tt;
  list_page = λ c q token s. (ok (page token), s);
  get_metadata = λ c id s. (ok (file id), s);
  get_media = λ c id s. (ok tt, s);
  create_file = λ c f content s. (err (codes "offline"), s);
  update_parents = λ c id new old s. (ok tt, s);
  start_page_token = λ c s. (ok (codes "p"), s);
  watch = λ c token channel s. (err (codes "offline"), s);
  stop = λ c id resource s. (ok tt, s);
  create_temp = λ pattern s.
      if contains s pattern then (err (codes "taken"), s) else (ok pattern, pattern ∷ s);
  copy_hashed = λ tmp body s. (err (codes "reset"), s);
  write_temp = λ tmp bytes s. (ok tt, s);
  close_temp = λ tmp s. (ok tt, s);
  remove_temp = λ tmp s. without tmp s;
  open_local = λ src s. none;
  quote = λ s. s;
}

service-Temps : Temps service
service-Temps = record {
  temps = λ s. s;
  create_ok = λ pattern tmp s h. elim (Bool-cases (contains s pattern)) [
    | inl there ↦ absurd (ground (arith, rw there at h))
    | inr new ↦
        let same = ok-injective pattern tmp (rw new at h) in
        (rw new (ap (λ x. x ∷ s) same), ap (contains s) (sym same) ∙ new)
  ];
  create_err = λ pattern e s h. elim (Bool-cases (contains s pattern)) [
    | inl there ↦ rw there
    | inr new ↦ absurd (ground (arith, rw new at h))
  ];
  remove = λ tmp s. refl;
  media = λ c id s. refl;
  copy = λ tmp b s. refl;
  write = λ tmp bytes s. refl;
  close = λ tmp s. refl;
  create_file = λ c f content s. refl;
}

download-Kept_example :
    Kept service service-Temps
      (service-Temps.temps (codes "other" ∷ []))
      (download service tt (codes "f1") (codes "other" ∷ []))
download-Kept_example = download-Kept service service-Temps tt (codes "f1") (codes "other" ∷ [])

abbrev both : List FileInfo
both = infos service seconds (page []) ++ infos service seconds (page (codes "2"))

list_folder-Pages_example :
    ((n : ℕ) (s' : List Text)
      → Pages service seconds tt (codes "l") (folder_query (codes "l") []) n [] [] both s'
      → n ≤ 5
      → list_folder service seconds 5 tt (codes "l") [] [] ≡ (ok both, s'))
    × ((list_folder service seconds 5 tt (codes "l") [] []).0 ≡ ok both
        → (n : ℕ) × (n ≤ 5)
          × Pages service seconds tt
              (codes "l")
              (folder_query (codes "l") [])
              n
              []
              []
              both
              (list_folder service seconds 5 tt (codes "l") [] []).1)
list_folder-Pages_example = list_folder-Pages service seconds tt (codes "l") [] 5 [] both

-- The listing has two pages.
listing_ends : Pages service seconds tt (codes "l") (folder_query (codes "l") []) 2 [] [] both []
unfolding infos
listing_ends =
    more_pages 1 [] [] [] [] (page []) (infos service seconds (page (codes "2"))) refl refl
      (last_page (codes "2") [] [] (page (codes "2")) refl refl)

abbrev pub settings : Config
settings = record {
  http = record { bind_addr = []; public_base_url = codes "https://x" };
  drive = record {
    inbox_folder_id = codes "i";
    library_folder_id = codes "l";
    processed_folder_id = codes "p";
  };
  oauth = record { client_id = codes "id"; redirect_path = [] };
  poll = record { interval = 1; stable_threshold = 1 };
  state_dir = codes "s";
  log_level = [];
  webhook = record { channel_ttl = 1; renew_lead_time = 1 };
}

abbrev pub new_client : google.Token → Drives.service.Http
new_client tok = tt

abbrev login : Flow (State Drives.service)
login = record { db = db; states = codes "s1" ∷ []; drive = Drives.state; ready = 0 }

accepted :
    (handle_callback google
      (set_client google Drives.service new_client settings)
      true
      (codes "s1")
      (codes "code")
      login).0
    ≡ 200
unfolding handle_callback contains text_eq without put_token exec set_client set_http_client ◌>>=◌
    keep_client pure
accepted = refl

handle_callback-IsConnected_example :
    IsConnected google Drives.service new_client settings
      (codes "code")
      (handle_callback google
        (set_client google Drives.service new_client settings)
        true
        (codes "s1")
        (codes "code")
        login).1.drive
handle_callback-IsConnected_example =
    handle_callback-IsConnected google Drives.service new_client settings (codes "s1")
      (codes "code") login accepted

-- A store with a token, in a working environment.
abbrev with_token : Db
with_token = record { tables = record tables { oauth_token = some (codes "t") }; faults = [] }

abbrev boot : Boot Text
boot = record {
  file = ok (codes "x");
  unmarshal = λ _. ok settings;
  getenv = λ _. codes "s";
  exporters = record { resource = none; traces = none; metrics = none; logs = none };
  mkdir_all = λ _. none;
  sql_open = λ _. ok with_token;
  now = codes "now";
  meter = record {
    int64_counter = λ name description. ok name;
    float64_histogram = λ name description unit. ok name;
  };
}

abbrev started : Started google Drives.service new_client
started = record {
  cfg = apply_defaults settings;
  secrets = record { oauth_client_secret = codes "s"; anthropic_api_key = codes "s" };
  drive = record Drives.state { client = some tt; db = with_token };
}

starts : (start google Drives.service new_client boot Drives.state.remote).0 ≡ ok started
unfolding start setup init load missing_fields apply_defaults load_secrets open_store migrate exec
    statement query restored set_client set_http_client ◌>>=◌ keep_client pure token_source
    get_token
starts = refl

start-IsStarted_example : IsStarted google Drives.service new_client boot started
start-IsStarted_example =
    start-IsStarted google Drives.service new_client boot Drives.state.remote started starts

-- The directory of the store cannot be made, and the exporters are left running.
abbrev no_dir : Boot Text
no_dir = record boot { mkdir_all = λ _. some (codes "read-only") }

start_test :
    start google Drives.service new_client no_dir Drives.state.remote
    ≡ (err (codes "creating state dir: read-only"), exporting)
unfolding start setup load missing_fields apply_defaults load_secrets
start_test = refl

start-telemetry_example : (start google Drives.service new_client no_dir Drives.state.remote).1 ≡ (
    if is_loaded (load no_dir.unmarshal no_dir.getenv no_dir.file)
      && (not (is_empty (codes "s")) && all_work no_dir.exporters)
    then exporting
    else untouched)
start-telemetry_example =
    start-telemetry google Drives.service new_client no_dir Drives.state.remote

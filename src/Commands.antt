-- ===== src/Commands.antt =====
-- cmd/paperclaw/main.go: the commands over the local storage. Package `flag`, the JSON encoder and
-- what `%q` and `%.2f` make of a value are parameters, as is what the terminal does.
pub mod Process
pub mod Library
pub mod Search
use paper_claw.Base.{
  ℕ, Text, codes, Error, Result, ok, err, Method, Bool, ◌||◌, Option, none, some, List, [], ◌∷◌,
  ◌++◌, text_eq, if◌then◌else◌,
}
use paper_claw.Document.Metadata.{Metadata, Amount}
use paper_claw.Document.Storage.{Stage}
use paper_claw.LocalStorage.{Os}

-- `processSummary`
pub record Summary : Type 0 where
  pub processed : ℕ
  pub skipped : ℕ
  pub quarantine : ℕ

-- `hit` of `runSearch`
pub record Hit : Type 0 where
  pub entry : Text
  pub id : Text

-- `logEntry`; a stage or an error that is left out is `none`.
pub record LogEntry : Type 0 where
  pub occurred_at : Text
  pub filename : Text
  pub status : Text
  pub stage : Option Stage
  pub error : Option Error

-- What is encoded to the standard output.
pub data Json : Type 0 where
  summary_json : Summary → Json
  list_json : List Metadata → Json
  shown_json : Metadata → Text → Json
  hits_json : List Hit → Json

-- The rest of the operating system: the standard output, the clock, and a log that is appended to.
pub record Console (O : Os) : Type 0 where
  pub print : Text → O.Disk → O.Disk
  -- The bytes of a string that need not be whole characters.
  pub print_bytes : List ℕ → O.Disk → O.Disk
  pub encode : Json → Method O.Disk (Unit {0})
  pub is_terminal : O.Disk → Bool
  pub now_text : O.Disk → Text
  pub today : O.Disk → Text
  pub open_append : Text → Method O.Disk (Unit {0})
  pub append : Text → Text → O.Disk → O.Disk
  pub marshal_log : LogEntry → Result Text
  pub quote : Text → Text
  pub amount_text : Amount → Text

-- The commands that `main` knows.
pub data Command : Type 0 where
  process list show search serve : Command

unfoldable pub command_of : Text → Option Command
command_of arg =
    if text_eq arg (codes "process")
    then some process
    else if text_eq arg (codes "list")
    then some list
    else if text_eq arg (codes "show")
    then some show
    else if text_eq arg (codes "search")
    then some search
    else if text_eq arg (codes "serve")
    then some serve
    else none

unfoldable pub is_help : Text → Bool
is_help arg =
    text_eq arg (codes "-h") || text_eq arg (codes "-help") || text_eq arg (codes "--help")

module _ (O : Os) where
  warn_all : List Text → O.Disk → O.Disk
  warn_all [] s = s
  warn_all (line ∷ lines) s = warn_all lines (O.warn line s)

  abbrev usage : List Text
  usage =
      codes "usage: paperclaw <command> [flags]"
      ∷ []
      ∷ codes "Commands:"
      ∷ codes
          "  process   process PDFs from inbox into the library (moves originals to processed dir)"
      ∷ codes "  list      list documents in the library"
      ∷ codes "  show      show a document by ID prefix"
      ∷ codes "  search    search document transcripts for a keyword"
      ∷ codes "  serve     run the daemon (Google Drive inbox, polling + push)"
      ∷ []
      ∷ codes "Run \"paperclaw <command> -help\" for command-specific flags."
      ∷ []
      ∷ codes "Environment:"
      ∷ codes "  ANTHROPIC_API_KEY      required for process and serve commands"
      ∷ codes "  OAUTH_CLIENT_SECRET    required for the serve command"
      ∷ []

  print_usage : O.Disk → O.Disk
  unfolding warn_all
  print_usage = warn_all usage

  exit_code : Result (Unit {0}) × O.Disk → ℕ × O.Disk
  exit_code (ok u, s) = (0, s)
  exit_code (err e, s) = (1, O.warn e s)

  dispatch : Text → Option Command → (Command → Method O.Disk (Unit {0})) → O.Disk → ℕ × O.Disk
  unfolding print_usage exit_code
  dispatch arg (some command) run s = exit_code (run command s)
  dispatch arg none run s =
      if is_help arg
      then (0, print_usage s)
      else (1, print_usage (O.warn (codes "unknown command: " ++ (arg ++ (10 ∷ []))) s))

  -- `main`, by the arguments behind the program's name; `run` is what the commands do with the rest.
  unfoldable pub main :
      List Text → (Command → List Text → Method O.Disk (Unit {0})) → O.Disk → ℕ × O.Disk
  unfolding dispatch
  main [] run s = (1, print_usage s)
  main (arg ∷ args) run s = dispatch arg (command_of arg) (λ command. run command args) s

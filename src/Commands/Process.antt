-- ===== src/Commands/Process.antt =====
-- cmd/paperclaw/main.go: `runProcess`, over the local storage and the pipeline.
pub mod Tally
use paper_claw.Base.{
  false, ℕ, ◌+◌, Text, codes, Error, Result, ok, err, Method, Option, none, some, List, [], ◌∷◌,
  ◌++◌, if◌then◌else◌,
}
use paper_claw.Base.Methods.{◌>>=◌, relabel}
use paper_claw.Document.Storage.{Status, processed, skipped, quarantined, Outcome, Storage}
use paper_claw.Document.Pipeline.{Env, World, process_one}
use paper_claw.Document.UniqueName.Decimal.{itoa}
use paper_claw.LocalStorage.{Os, Local, list_inbox, local_storage}
use paper_claw.LocalStorage.Path.{join_path, clean}
use paper_claw.Commands.{Summary, LogEntry, summary_json, Console}

-- The directories that the flags name.
pub record ProcessFlags : Type 0 where
  pub inbox : Text
  pub library : Text
  pub processed : Text

abbrev pub no_files : Summary
no_files = record { processed = 0; skipped = 0; quarantine = 0 }

-- The summary after one more result.
unfoldable pub counted : Status → Summary → Summary
counted processed sum = record sum { processed = sum.processed + 1 }
counted skipped sum = record sum { skipped = sum.skipped + 1 }
counted quarantined sum = record sum { quarantine = sum.quarantine + 1 }

-- What the log says of a result: its status, and for a quarantine the stage and the error.
unfoldable pub log_entry : Text → Text → Outcome → LogEntry
log_entry now name o = elim o.status [
  | processed ↦ record {
    occurred_at = now;
    filename = name;
    status = codes "processed";
    stage = none;
    error = none;
  }
  | skipped ↦ record {
    occurred_at = now;
    filename = name;
    status = codes "skipped";
    stage = none;
    error = none;
  }
  | quarantined ↦ record {
    occurred_at = now;
    filename = name;
    status = codes "quarantined";
    stage = o.stage;
    error = o.cause;
  }
]

module _ (O : Os) (c : Console O) where
  log_line : Text → Result Text → O.Disk → O.Disk
  log_line path (err e) s = s
  log_line path (ok line) s = c.append path (line ++ (10 ∷ [])) s

  -- `writeLog`: an entry that cannot be encoded is left out.
  unfoldable pub write_log : Text → Text → Outcome → O.Disk → O.Disk
  unfolding log_line
  write_log path name o s = log_line path (c.marshal_log (log_entry (c.now_text s) name o)) s

  unfoldable pub warn_move : Text → Option Error → O.Disk → O.Disk
  warn_move name none s = s
  warn_move name (some cause) s =
      O.warn (codes "warning: could not move " ++ (name ++ (codes " to processed: " ++ cause))) s

  -- What the loop does with a result, and then goes on with the rest.
  after_one :
      Text
      → Text
      → (Summary → Method O.Disk Summary)
      → Summary
      → Result Outcome × World O.Disk
      → Result Summary × O.Disk
  unfolding warn_move
  after_one log name rest sum (err cause, w) = (err (codes "checking library: " ++ cause), w.store)
  after_one log name rest sum (ok o, w) =
      rest (counted o.status sum) (warn_move name o.move_err (write_log log name o w.store))

  module _ (d : Local) (rounds : ℕ) (unicode : ℕ → ℕ) (env : Env O.Disk) where
    abbrev pub files : Storage
    files = local_storage O d rounds unicode

    -- One file, with no observer.
    abbrev pub one : Text → O.Disk → Result Outcome × World O.Disk
    one name s =
        process_one files (record env { observed = false }) name record { store = s; events = [] }

    unfoldable pub process_all : Text → List Text → Summary → Method O.Disk Summary
    unfolding after_one
    process_all log [] sum s = (ok sum, s)
    process_all log (name ∷ names) sum s =
        after_one log name (process_all log names) sum (one name s)

  -- `printSummary`
  unfoldable pub print_summary : Summary → Method O.Disk (Unit {0})
  print_summary sum s =
      if c.is_terminal s
      then (
        ok tt,
        c.print
            (itoa sum.processed
              ++ (codes " documents processed, "
                  ++ (itoa sum.skipped
                      ++ (codes " skipped (duplicate), "
                          ++ (itoa sum.quarantine ++ (codes " quarantined" ++ (10 ∷ [])))))))
            s,
      )
      else c.encode (summary_json sum) s

  print_settings : Local → O.Disk → O.Disk
  print_settings d = c.print (
      codes "inbox:     "
      ++ (d.inbox_dir
          ++ (codes "\nlibrary:   "
              ++ (d.library_dir ++ (codes "\nprocessed: " ++ (d.processed_dir ++ (10 ∷ [])))))))

  module _ (rounds : ℕ) (unicode : ℕ → ℕ) (env : Env O.Disk) where
    process_in : Local → Method O.Disk (Unit {0})
    process_in d =
        let log = join_path d.library_dir (codes "process.log") in
        (λ s. relabel (codes "creating library: ") (O.mkdir_all d.library_dir s)) >>= λ _.
        (λ s. relabel (codes "opening log: ") (c.open_append log s)) >>= λ _.
        list_inbox O d >>= λ names.
        process_all d rounds unicode env log names no_files >>= λ sum. print_summary sum

    unfoldable pub process_with : ProcessFlags → Method O.Disk (Unit {0})
    unfolding process_in print_settings
    process_with flags s =
        let d : Local = record {
          inbox_dir = clean flags.inbox;
          library_dir = clean flags.library;
          processed_dir = clean flags.processed;
        } in
        process_in d (print_settings d s)

    -- `runProcess`, by what parsing the flags returns.
    unfoldable pub run_process : Result ProcessFlags → Method O.Disk (Unit {0})
    run_process (err e) s = (err e, s)
    run_process (ok flags) s = process_with flags s

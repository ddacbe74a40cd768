-- ===== src/Commands/Process/Tally.antt =====
-- What the summary of a whole run counts.
use paper_claw.Base.{
  ℕ, ◌+◌, Text, Error, Result, ok, err, Bool, true, false, List, [], ◌∷◌, ◌++◌, codes, ◌≡◌,
  if◌then◌else◌, refl, sym, ap, arith,
}
use paper_claw.Document.Storage.{Status, processed, skipped, quarantined, Outcome}
use paper_claw.Document.Pipeline.{Env, World}
use paper_claw.LocalStorage.{Os, Local}
use paper_claw.Commands.{Summary, Console}
use paper_claw.Commands.Process.{counted, write_log, warn_move, after_one, one, process_all}

module _ (O : Os) (c : Console O) (d : Local) (rounds : ℕ) (unicode : ℕ → ℕ) (env : Env O.Disk)
    (log : Text) where
  -- The disk after the log line and the warning of a result.
  abbrev pub noted : Text → Outcome → O.Disk → O.Disk
  noted name o s = warn_move O c name o.move_err (write_log O c log name o s)

  -- The files are processed one after another, with these results.
  pub data Results : List Text → O.Disk → List Outcome → O.Disk → Type 0 where
    no_more : (s : O.Disk) → Results [] s [] s
    next :
        (name : Text) (names : List Text) (s s' : O.Disk) (o : Outcome) (os : List Outcome)
        → (one O c d rounds unicode env name s).0 ≡ ok o
        → Results names (noted name o (one O c d rounds unicode env name s).1.store) os s'
        → Results (name ∷ names) s (o ∷ os) s'

  -- How many of the results have a status.
  is_status : Status → Status → Bool
  is_status processed processed = true
  is_status skipped skipped = true
  is_status quarantined quarantined = true
  is_status a b = false

  pub count : Status → List Outcome → ℕ
  unfolding is_status
  count st [] = 0
  count st (o ∷ os) = let rest = count st os in if is_status o.status st then rest + 1 else rest

  -- Each counter has grown by the number of results with its status.
  pub record IsTotal (sum : Summary) (os : List Outcome) (total : Summary) : Type 0 where
    pub all_processed : total.processed ≡ sum.processed + count processed os
    pub all_skipped : total.skipped ≡ sum.skipped + count skipped os
    pub all_quarantined : total.quarantine ≡ sum.quarantine + count quarantined os

  -- The number with a status, among the results and one more.
  abbrev with_first : Status → Status → ℕ → ℕ
  with_first st first rest = if is_status first st then rest + 1 else rest

  total_with_first :
      (first : Status) (sum total : Summary) (os : List Outcome)
      → IsTotal (counted first sum) os total
      → (total.processed ≡ sum.processed + with_first processed first (count processed os))
        × (total.skipped ≡ sum.skipped + with_first skipped first (count skipped os))
        × (total.quarantine ≡ sum.quarantine + with_first quarantined first (count quarantined os))
  unfolding counted is_status
  total_with_first processed sum total os t =
      (omega (arith, t.all_processed), t.all_skipped, t.all_quarantined)
  total_with_first skipped sum total os t =
      (t.all_processed, omega (arith, t.all_skipped), t.all_quarantined)
  total_with_first quarantined sum total os t =
      (t.all_processed, t.all_skipped, omega (arith, t.all_quarantined))

  IsTotal-counted :
      (sum total : Summary) (o : Outcome) (os : List Outcome)
      → IsTotal (counted o.status sum) os total
      → IsTotal sum (o ∷ os) total
  unfolding count
  IsTotal-counted sum total o os t =
      let (p, q, r) = total_with_first o.status sum total os t in
      record { all_processed = p; all_skipped = q; all_quarantined = r }

  -- How a run over the files ends: all are processed and the summary is their tally, or the first one
  -- whose duplicate test fails ends it.
  pub data Ran (names : List Text) (sum : Summary) (s : O.Disk) (run : Result Summary × O.Disk)
      : Type 0 where
    finished :
        (os : List Outcome) (total : Summary) (s' : O.Disk)
        → Results names s os s'
        → IsTotal sum os total
        → run ≡ (ok total, s')
        → Ran names sum s run
    stopped :
        (before after : List Text) (name : Text) (os : List Outcome) (s1 : O.Disk) (cause : Error)
        → names ≡ before ++ (name ∷ after)
        → Results before s os s1
        → (one O c d rounds unicode env name s1).0 ≡ err cause
        → run ≡ (
          err (codes "checking library: " ++ cause),
          (one O c d rounds unicode env name s1).1.store,
        )
        → Ran names sum s run

  Ran-next :
      (name : Text) (names : List Text) (sum : Summary) (s : O.Disk) (o : Outcome)
      (run : Result Summary × O.Disk)
      → (one O c d rounds unicode env name s).0 ≡ ok o
      → Ran names
          (counted o.status sum)
          (noted name o (one O c d rounds unicode env name s).1.store)
          run
      → Ran (name ∷ names) sum s run
  Ran-next name names sum s o run h (finished os total s' rs t e) =
      finished (o ∷ os) total s' (next name names s s' o os h rs) (IsTotal-counted sum total o os t)
        e
  Ran-next name names sum s o run h (stopped before after n os s1 cause p rs failed e) =
      stopped (name ∷ before) after n (o ∷ os) s1 cause (ap (λ ns. name ∷ ns) p)
        (next name before s s1 o os h rs) failed e

  after_one-Ran :
      (name : Text) (names : List Text) (sum : Summary) (s : O.Disk)
      (r : Result Outcome × World O.Disk)
      → one O c d rounds unicode env name s ≡ r
      → ((sum' : Summary) (t : O.Disk)
          → Ran names sum' t (process_all O c d rounds unicode env log names sum' t))
      → Ran
          (name ∷ names)
          sum
          s
          (after_one O c log name (process_all O c d rounds unicode env log names) sum r)
  unfolding after_one
  after_one-Ran name names sum s (err cause, w) p rest =
      stopped [] names name [] s cause refl (no_more s) (ap (λ r. r.0) p)
        (ap (λ r. (err (codes "checking library: " ++ cause), r.1.store)) (sym p))
  after_one-Ran name names sum s (ok o, w) p rest =
      Ran-next name names sum s o _ (ap (λ r. r.0) p)
        (rw p (rest (counted o.status sum) (noted name o w.store)))

  -- The files are processed in order, each once, up to the first whose duplicate test fails, whose
  -- error ends the run; if there is none, the summary counts the results by their status.
  pub process_all-Ran :
      (names : List Text) (sum : Summary) (s : O.Disk)
      → Ran names sum s (process_all O c d rounds unicode env log names sum s)
  unfolding process_all count
  process_all-Ran [] sum s =
      finished [] sum s (no_more s)
        (record {
          all_processed = (omega arith);
          all_skipped = (omega arith);
          all_quarantined = (omega arith);
        })
        refl
  process_all-Ran (name ∷ names) sum s =
      after_one-Ran name names sum s (one O c d rounds unicode env name s) refl
        (λ sum' t. process_all-Ran names sum' t)

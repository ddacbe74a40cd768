-- ===== src/Tests/Cli.antt =====
-- The commands on the disk in memory, and the readiness probe.
use paper_claw.Base.{some, codes, ok, true, false, [], ◌∷◌, contains, text_eq, ◌≡◌, refl}
use paper_claw.Base.Dict.{keys}
use paper_claw.Commands.{Console}
use paper_claw.Commands.Process.{no_files, process_all}
use paper_claw.Commands.Process.Tally.{Ran, process_all-Ran}
use paper_claw.Commands.Library.{ListFlags}
use paper_claw.Base.Utf8.{utf8}
use paper_claw.Commands.Search.{first_12, hits_in, run_search}
use paper_claw.Commands.Search.Hits.{Hits, hits_in-Hits, Cut, run_search-Cut}
use paper_claw.Document.Slug.{to_lower}
use paper_claw.LocalStorage.Path.{join_path}
use paper_claw.ServerHttp.Readyz.{handle_readyz}
use paper_claw.ServerHttp.Readyz.Healthy.{Reports, handle_readyz-Reports}
use paper_claw.Store.DaemonStatus.{status_of}
use paper_claw.Tests.Data.{seconds, db}
use paper_claw.Tests.Local.{ascii, disk, dirs, tools, filed_disk, listing}
use paper_claw.Tests.Memory.{Memory, memory}

abbrev console : Console memory
console = record {
  print = λ line s. record s { stdout = line ∷ s.stdout };
  print_bytes = λ bytes s. record s { stdout = bytes ∷ s.stdout };
  encode = λ json s. (ok tt, s);
  is_terminal = λ s. s.terminal;
  now_text = λ s. codes "now";
  today = λ s. codes "2024-06-01";
  open_append = λ path s. (ok tt, s);
  append = λ path line s. s;
  marshal_log = λ e. ok e.status;
  quote = λ s. s;
  amount_text = λ a. [];
}

process_all-Ran_example :
    Ran memory console dirs 3 ascii tools (codes "log") (codes "a.pdf" ∷ []) no_files disk (
      process_all memory console dirs 3 ascii tools
        (codes "log")
        (codes "a.pdf" ∷ [])
        no_files
        disk)
process_all-Ran_example =
    process_all-Ran memory console dirs 3 ascii tools (codes "log") (codes "a.pdf" ∷ []) no_files
      disk

abbrev invoices : ListFlags
invoices = record {
  library = codes "l";
  doc_type = codes "invoice";
  since = codes "2024-01-01";
  vendor = codes "ac";
  overdue = false;
}

-- A disk with a transcript that has the query.
abbrev text_disk : Memory
text_disk = record filed_disk {
  files = (codes "l/2024/transcript.md", codes "Due now") ∷ filed_disk.files;
}

hits_in-Hits_example :
    Hits memory ascii
      (codes "l")
      (codes "due")
      text_disk
      listing
      (hits_in memory ascii (codes "l") (codes "due") text_disk listing)
hits_in-Hits_example = hits_in-Hits memory ascii (codes "l") (codes "due") text_disk listing

text_disk-listed : memory.read_dir text_disk (codes "l") ≡ ok listing
unfolding join_path contains text_eq keys
text_disk-listed = refl

run_search-Cut_example :
    Cut memory console
      (hits_in memory ascii (codes "l") (to_lower ascii (codes "Due")) text_disk listing)
      (run_search memory console ascii
        (ok record { library = codes "l"; args = codes "Due" ∷ [] })
        text_disk)
run_search-Cut_example =
    run_search-Cut memory console ascii (codes "l") (codes "Due") [] text_disk listing
      text_disk-listed refl

handle_readyz-Reports_example :
    Reports true db.tables.oauth_token (status_of seconds db) (handle_readyz seconds true db).0
handle_readyz-Reports_example = handle_readyz-Reports seconds true db refl

-- The twelfth byte of an ID of seven characters is the end of its sixth.
first_12_test :
    first_12 (codes "üüüüüüü")
    ≡ some (0xc3 ∷ 0xbc ∷ 0xc3 ∷ 0xbc ∷ 0xc3 ∷ 0xbc ∷ 0xc3 ∷ 0xbc ∷ 0xc3 ∷ 0xbc ∷ 0xc3 ∷ 0xbc ∷ [])
unfolding first_12 utf8
first_12_test = refl

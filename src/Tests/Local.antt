-- ===== src/Tests/Local.antt =====
-- The local storage, on a disk with one file in the inbox.
use paper_claw.Base.{
  ℕ, ◌≤◌, Text, codes, ok, All, true, false, some, List, [], ◌∷◌, ◌++◌, Any, ◌↔◌, contains, text_eq,
  text_eq_iff, ◌≡◌, ◌≢◌, refl, sym, ap, ◌∙◌, zero, suc, inl, arith, ok-injective,
}
use paper_claw.Base.Dict.{lookup, insert, keys}
use paper_claw.Base.Methods.{◌>>=◌}
use paper_claw.Document.UniqueName.Decimal.{itoa}
use paper_claw.Document.Storage.{Entry}
use paper_claw.Document.Pipeline.{Env, World, process_one}
use paper_claw.Document.FileName.{ext, trim_suffix, stem}
use paper_claw.LocalStorage.{
  DirEntry, Local, second_name, quarantine_dir, local_storage, write_entry, move_to_processed,
  taken, entry_base, is_duplicate, description, write_as, fill_entry, copy_file, is_entry,
}
use paper_claw.LocalStorage.Entries.{write_entry_keeps}
use paper_claw.LocalStorage.Written.{Picked, write_entry-Picked}
use paper_claw.LocalStorage.Duplicates.{HasHash, is_duplicate_iff, is_duplicate_after_write_entry}
use paper_claw.Document.UniqueName.{candidate, unique_dir_name}
use paper_claw.Document.Slug.{
  format_dir_name, truncate_slug, to_slug, trim_right, slug_loop, to_lower, umlaut_map,
  transliterate, slug_step, is_alnum, last_index, lower_rune,
}
use paper_claw.LocalStorage.Path.{join_path}
use paper_claw.LocalStorage.Disk.{Holds}
use paper_claw.LocalStorage.Moves.{quarantine_paths, Safe, move_to_processed-Safe}
use paper_claw.LocalStorage.Runs.{Intact, process_one-Intact}
use paper_claw.Tests.Data.{bill}
use paper_claw.Tests.Memory.{Memory, memory, memory-IsOs, chomp}

abbrev pub dirs : Local
dirs = record { inbox_dir = codes "i"; library_dir = codes "l"; processed_dir = codes "p" }

abbrev pub disk : Memory
disk = record {
  files = (codes "i/a.pdf", codes "12345678") ∷ (codes "p/a.pdf", codes "other") ∷ [];
  dirs = codes "i" ∷ codes "l" ∷ codes "p" ∷ [];
  stderr = [];
  stdout = [];
  terminal = true;
  two_devices = true;
}

abbrev pub ascii : ℕ → ℕ
ascii r = r

abbrev pub tools : Env Memory
tools = record {
  extractor = λ _ path. ok path;
  classifier = λ _ _ _ hash _. ok (record bill { content_hash = hash });
  validator = λ _. ok [];
  now = λ _. 7;
  observed = false;
}

abbrev world : World Memory
world = record { store = disk; events = [] }

differ : (s t : Text) → text_eq s t ≡ false → s ≢ t
differ s t h p = absurd (ground (arith, (text_eq_iff s t).1 p, h))

there : Holds memory disk (join_path (codes "i") (codes "a.pdf")) (codes "12345678")
unfolding join_path lookup text_eq
there = refl

first_off : join_path (codes "i") (codes "a.pdf") ≢ join_path (codes "p") (codes "a.pdf")
unfolding join_path text_eq
first_off = differ _ _ refl

second_off :
    join_path (codes "i") (codes "a.pdf")
    ≢ join_path (codes "p") (second_name memory dirs (codes "a.pdf") (codes "12345678"))
unfolding join_path second_name ext stem trim_suffix text_eq
second_off = differ _ _ refl

abbrev src : Text
src = join_path (codes "i") (codes "a.pdf")

move_to_processed-Safe_example :
    Safe memory memory-IsOs dirs
      (codes "a.pdf")
      (codes "12345678")
      disk
      (move_to_processed memory dirs (codes "a.pdf") (codes "12345678") disk).1
move_to_processed-Safe_example =
    move_to_processed-Safe memory memory-IsOs dirs (codes "a.pdf") (codes "12345678") disk first_off
      second_off

has_library : codes "l" ≢ []
has_library p = absurd (ground arith)

aside : All (λ p. p ≢ src) (quarantine_paths memory memory-IsOs dirs (codes "a.pdf"))
unfolding join_path quarantine_dir text_eq
aside = (differ _ _ refl, (differ _ _ refl, tt))

process_one-Intact_example :
    Intact memory memory-IsOs dirs 3 ascii tools
      (codes "a.pdf")
      (codes "12345678")
      world
      there
      has_library
      (process_one (local_storage memory dirs 3 ascii) tools (codes "a.pdf") world).1.store
process_one-Intact_example =
    process_one-Intact memory memory-IsOs dirs 3 ascii tools (codes "a.pdf") (codes "12345678")
      world there has_library first_off second_off aside

abbrev entry : Entry
entry = record { pdf_path = src; transcript = codes "text"; metadata = bill }

write_entry_keeps_example :
    Holds memory (write_entry memory dirs 3 ascii entry disk).1 src (codes "12345678")
write_entry_keeps_example =
    write_entry_keeps memory memory-IsOs dirs 3 ascii entry disk src (codes "12345678") has_library
      there

abbrev name : Text
name = codes "2024-05-01_acme_invoice"

base_name : entry_base memory dirs 1 ascii bill ≡ name
unfolding format_dir_name truncate_slug to_slug trim_right slug_loop to_lower umlaut_map
    transliterate slug_step is_alnum last_index lower_rune description
base_name = refl

name_free : taken memory dirs disk name ≡ false
unfolding taken join_path contains text_eq keys
name_free = refl

candidate_free : (i : ℕ) → i ≤ 2 → taken memory dirs disk (candidate name i) ≡ false
unfolding taken join_path contains text_eq keys candidate itoa
candidate_free zero h = refl
candidate_free (suc zero) h = refl
candidate_free (suc (suc zero)) h = refl
candidate_free (suc (suc (suc i))) h = absurd (omega arith)

-- No candidate is taken.
none_taken :
    (i : ℕ)
    → i ≤ 2
    → taken memory dirs disk (candidate (entry_base memory dirs 1 ascii bill) i) ≡ true
    → contains [] (candidate (entry_base memory dirs 1 ascii bill) i) ≡ true
none_taken i le h = absurd (
    ground (
      arith,
      ap (λ b. taken memory dirs disk (candidate b i)) (sym base_name) ∙ h,
      candidate_free i le,
    ))

write_entry-Picked_example :
    Picked memory memory-IsOs dirs entry
      (entry_base memory dirs 1 ascii bill)
      (codes "12345678")
      disk
      (write_entry memory dirs 1 ascii entry disk)
write_entry-Picked_example =
    write_entry-Picked memory memory-IsOs dirs ascii [] entry (codes "12345678") disk has_library
      none_taken there

abbrev pub listing : List DirEntry
listing = record { name = codes "2024"; is_dir = true } ∷ []

-- The disk with an entry of this hash in the library.
abbrev pub filed_disk : Memory
filed_disk = record disk {
  files = (codes "l/2024/metadata.json", codes "aa" ++ (10 ∷ [])) ∷ disk.files;
  dirs = codes "l/2024" ∷ codes "l" ∷ [];
}

filed_disk-listed : memory.read_dir filed_disk (codes "l") ≡ ok listing
unfolding join_path contains text_eq keys
filed_disk-listed = refl

is_duplicate_iff_example :
    (((is_duplicate memory dirs (codes "aa") filed_disk).0 ≡ ok true)
      ↔ Any (HasHash memory (codes "l") (codes "aa") filed_disk) listing)
    × (((is_duplicate memory dirs (codes "aa") filed_disk).0 ≡ ok false)
        ↔ (¬ Any (HasHash memory (codes "l") (codes "aa") filed_disk) listing))
is_duplicate_iff_example =
    is_duplicate_iff memory dirs (codes "aa") filed_disk listing filed_disk-listed

abbrev written_disk : Memory
written_disk = (write_entry memory dirs 1 ascii entry disk).1

picked : unique_dir_name 1 name (taken memory dirs disk) ≡ some name
unfolding unique_dir_name
picked = rw name_free

written : (write_as memory dirs entry (some name) disk).0 ≡ ok name
unfolding write_as ◌>>=◌ fill_entry copy_file join_path lookup insert text_eq
written = refl

entry-written : (write_entry memory dirs 1 ascii entry disk).0 ≡ ok name
unfolding write_entry
entry-written = rw (base_name, picked) written

as_picked : write_entry memory dirs 1 ascii entry disk ≡ write_as memory dirs entry (some name) disk
unfolding write_entry
as_picked = rw (base_name, picked)

abbrev new_listing : List DirEntry
new_listing = record { name = name; is_dir = true } ∷ []

listed_new :
    memory.read_dir (write_as memory dirs entry (some name) disk).1 (codes "l") ≡ ok new_listing
unfolding write_as ◌>>=◌ fill_entry copy_file join_path lookup insert keys contains text_eq
listed_new = refl

is_new : is_entry (record { name = name; is_dir = true }) ≡ true
unfolding is_entry text_eq
is_new = refl

is_duplicate_after_write_entry_example :
    (is_duplicate memory dirs (codes "bb") (write_entry memory dirs 1 ascii entry disk).1).0
    ≡ ok true
is_duplicate_after_write_entry_example =
    is_duplicate_after_write_entry memory dirs memory-IsOs 1 ascii entry (codes "12345678") name
      disk new_listing has_library there entry-written
      (ap (λ r. memory.read_dir r.1 (codes "l")) as_picked ∙ listed_new) (inl (refl, is_new))
      (λ json p. (
        record bill { content_hash = chomp (json ++ (10 ∷ [])) },
        refl,
        ap (λ j. chomp (j ++ (10 ∷ []))) (sym (ok-injective (codes "bb") json p)),
      ))

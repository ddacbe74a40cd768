-- ===== src/DriveStorage/Grows.antt =====
-- No method of the Drive storage takes a hash out of the dedup index, and the storage answers by it.
pub mod Calls
pub mod Files
pub mod Written
pub mod Aside
use paper_claw.Base.{ℕ, Text, ok, Bool, true, false, ◌≡◌, ◌≢◌, ap, ◌∙◌}
use paper_claw.Document.Pipeline.Indexed.{IsIndexed}
use paper_claw.Store.Sql.{Rfc3339}
use paper_claw.Store.Documents.{indexed, has_hash-indexed}
use paper_claw.DriveStorage.{Service, Drive, State, on_db}
use paper_claw.DriveStorage.Files.{is_duplicate}
use paper_claw.DriveStorage.Quarantine.{drive_storage}
use paper_claw.DriveStorage.Quiet.{read_pdf-Tidy}
use paper_claw.DriveStorage.Index.{write_entry-Written}
use paper_claw.DriveStorage.Grows.Calls.{ProviderGrows}
use paper_claw.DriveStorage.Grows.Files.{
  list_inbox-Grow, read_pdf-Grow, is_duplicate-Grow, move_to_processed-Grow,
}
use paper_claw.DriveStorage.Grows.Written.{write_entry-Grow}
use paper_claw.DriveStorage.Grows.Aside.{quarantine-Grow}

module _ (G : Service) (d : Drive G) where
  module _ (provider : ProviderGrows G d) where
    -- What the dedup index of the store has.
    abbrev pub knows_hash : State G → Text → Bool
    knows_hash s hash = indexed s.db hash

    known_answer :
        (s : State G) (hash : Text)
        → indexed s.db hash ≡ true
        → (is_duplicate G d hash s).0 ≢ ok false
    unfolding is_duplicate on_db
    known_answer s hash known answered =
        let no = has_hash-indexed hash s.db false answered in absurd (cc (no, known))

    -- The Drive storage is an indexed storage.
    pub drive_storage-IsIndexed :
        (unicode : ℕ → ℕ) (rfc : Rfc3339) → IsIndexed (drive_storage G d unicode rfc) knows_hash
    drive_storage-IsIndexed unicode rfc = record {
      keeps = λ hash. record {
        lists = λ s. (list_inbox-Grow G d provider s).index hash;
        reads = λ name s. (read_pdf-Grow G d provider name s).index hash;
        closes = λ name s pdf got t h.
            ap (λ db. indexed db hash) (read_pdf-Tidy G d name s pdf got t) ∙ h;
        asks = λ asked s. (is_duplicate-Grow G d provider asked s).index hash;
        writes = λ e s. (write_entry-Grow G d provider unicode rfc e s).index hash;
        moves = λ name moved s. (move_to_processed-Grow G d provider name s).index hash;
        sets_aside = λ name pe s. (quarantine-Grow G d provider name pe s).index hash;
      };
      answers = λ s hash known answered. known_answer s hash known answered;
      written = λ e s name wrote. (write_entry-Written G d unicode rfc e s name wrote).is_indexed;
    }

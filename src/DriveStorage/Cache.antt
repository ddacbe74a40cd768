-- ===== src/DriveStorage/Cache.antt =====
-- internal/storage/drive/drive.go: what ListInbox returns and what the scan cache holds behind it.
pub mod Files
use mathlib.Core.Path.{subst}
use paper_claw.Base.{ok-injective, Text, codes, ok, List, [], ◌≡◌, sym, ap, ◌∙◌, Result}
use paper_claw.Base.Dict.{lookup}
use paper_claw.Base.Methods.{>>=-ok}
use paper_claw.DriveStorage.{
  FileInfo, Service, Drive, State, on_remote, drive_client, listed, list_stable, list_inbox,
}
use paper_claw.DriveStorage.Cache.Files.{
  Settled, Last, scan_names, lookup-scan, or_else-none, stable_names-Settled, last_stable-Last,
}

module _ (G : Service) (d : Drive G) where
  -- The listing of the inbox, behind the making of the client.
  abbrev pub inbox_listing : G.Client → State G → Result (List FileInfo) × G.Remote
  inbox_listing client s =
      G.list_folder client d.inbox_folder_id (codes "application/pdf") (drive_client G d s).1.remote

  -- What a successful listing returns and leaves: the names of the settled files of the inbox, and for
  -- every name its last settled file, both by the clock behind the listing.
  pub record Scanned (s : State G) (names : List Text) : Type 0 where
    pub client : G.Client
    pub files : List FileInfo
    pub connected : (drive_client G d s).0 ≡ ok client
    pub answered : (inbox_listing client s).0 ≡ ok files
    pub are_settled : Settled (G.now (inbox_listing client s).1) d.stable_threshold files names
    pub is_cached :
        (name : Text)
        → Last
            (G.now (inbox_listing client s).1)
            d.stable_threshold
            name
            files
            (lookup name (list_inbox G d s).1.scan_files)

  -- The names that a successful `ListInbox` returns are those of the files in the inbox that have a
  -- checksum and were not modified within the threshold before the listing, in its order, and the scan
  -- cache behind it has for each name the last such file, and nothing else.
  pub list_inbox-Scanned :
      (s : State G) (names : List Text) → (list_inbox G d s).0 ≡ ok names → Scanned s names
  unfolding list_inbox list_stable listed on_remote lookup
  list_inbox-Scanned s names h =
      let (c, connected, p) = >>=-ok (drive_client G d) (list_stable G d) s names h in
      let (files, answered, q) =
        >>=-ok (on_remote (G.list_folder c d.inbox_folder_id (codes "application/pdf")))
          (listed G d) (drive_client G d s).1 names (rw (← p) h) in
      let listing = p ∙ q in
      let now = G.now (inbox_listing c s).1 in
      record {
        client = c;
        files = files;
        connected = connected;
        answered = answered;
        are_settled =
            subst (Settled now d.stable_threshold files)
              (sym (
                ok-injective _ _ (sym h ∙ ap (λ r. r.0) listing)
                ∙ scan_names now d.stable_threshold files []))
              (stable_names-Settled now d.stable_threshold files);
        is_cached = λ name.
            subst (Last now d.stable_threshold name files)
              (sym (
                ap (λ r. lookup name r.1.scan_files) listing
                ∙ lookup-scan now d.stable_threshold name files []
                ∙ or_else-none _))
              (last_stable-Last now d.stable_threshold name files);
      }

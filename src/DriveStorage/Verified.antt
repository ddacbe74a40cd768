-- ===== src/DriveStorage/Verified.antt =====
-- internal/storage/drive/drive.go: no file that is not in the scan cache, or that has changed since, is
-- read by ReadPDF.
use paper_claw.Base.{
  ok-injective, Text, ok, true, Option, none, some, [], ne-is_empty, Bool-cases, inl, inr, ◌≡◌,
  refl, arith, sym, ap, ◌∙◌, ◌≢◌,
}
use paper_claw.Base.Dict.{lookup}
use paper_claw.Base.Methods.{>>=-ok, relabel-ok, relabel-state}
use paper_claw.Document.Storage.{LocalPdf}
use paper_claw.DriveStorage.{
  FileInfo, Service, Drive, State, is_unchanged, on_remote, pure, fail, drive_client,
}
use paper_claw.DriveStorage.Files.{local_pdf, verified, read_cached, read_with, read_pdf, refetched}

module _ (G : Service) (d : Drive G) where
  -- A file is read only if the cache has it, and its metadata, fetched again, has kept size and time and
  -- has a checksum; what is read is then the download of the cached id.
  pub record Verified (name : Text) (s : State G) (pdf : LocalPdf (State G)) : Type 0 where
    pub client : G.Client
    pub cached : FileInfo
    pub fresh : FileInfo
    pub file : LocalPdf G.Remote
    pub connected : (drive_client G d s).0 ≡ ok client
    pub is_cached : lookup name (drive_client G d s).1.scan_files ≡ some cached
    pub answered : (G.get_file client cached.id (drive_client G d s).1.remote).0 ≡ ok fresh
    pub same_size : fresh.size ≡ cached.size
    pub same_time : fresh.modified_time ≡ cached.modified_time
    pub has_checksum : fresh.md5_checksum ≢ []
    pub downloaded :
        (G.download client cached.id
          (G.get_file client cached.id (drive_client G d s).1.remote).1).0
        ≡ ok file
    pub is_file : pdf ≡ local_pdf G d file

  refetched-ok :
      (name : Text) (c : G.Client) (cached fresh : FileInfo) (s : State G)
      → (refetched G d name c cached s).0 ≡ ok fresh
      → (G.get_file c cached.id s.remote).0 ≡ ok fresh
  unfolding refetched on_remote
  refetched-ok name c cached fresh s h = relabel-ok _ _ fresh h

  refetched-remote :
      (name : Text) (c : G.Client) (cached : FileInfo) (s : State G)
      → (refetched G d name c cached s).1.remote ≡ (G.get_file c cached.id s.remote).1
  unfolding refetched on_remote
  refetched-remote name c cached s =
      ap (λ t. t.remote) (relabel-state _ (on_remote (G.get_file c cached.id) s))

  verified-ok :
      (name : Text) (c : G.Client) (cached fresh : FileInfo) (s : State G)
      (pdf : LocalPdf (State G))
      → (verified G d name c cached fresh s).0 ≡ ok pdf
      → (is_unchanged cached fresh ≡ true)
        × (file : LocalPdf G.Remote) × ((G.download c cached.id s.remote).0 ≡ ok file)
        × (pdf ≡ local_pdf G d file)
  unfolding verified fail on_remote pure
  verified-ok name c cached fresh s pdf h = elim (Bool-cases (is_unchanged cached fresh)) [
    | inl e ↦
        let (file, downloaded, p) =
          >>=-ok (on_remote (G.download c cached.id)) (λ file. pure (local_pdf G d file)) s pdf
            (rw e at h) in
        (e, file, downloaded, sym (ok-injective _ _ (sym (ap (λ r. r.0) p) ∙ (rw e at h))))
    | inr e ↦ absurd (ground arith)
  ]

  read_cached-Verified :
      (name : Text) (c : G.Client) (s0 : State G) (pdf : LocalPdf (State G))
      (found : Option FileInfo)
      → (drive_client G d s0).0 ≡ ok c
      → lookup name (drive_client G d s0).1.scan_files ≡ found
      → (read_cached G d name c found (drive_client G d s0).1).0 ≡ ok pdf
      → Verified name s0 pdf
  unfolding read_cached fail
  read_cached-Verified name c s0 pdf none connected e h = absurd (ground arith)
  read_cached-Verified name c s0 pdf (some cached) connected e h =
      let s1 = (drive_client G d s0).1 in
      let (fresh, answered, q) =
        >>=-ok (refetched G d name c cached) (verified G d name c cached) s1 pdf h in
      let (unchanged, file, downloaded, same) =
        verified-ok name c cached fresh (refetched G d name c cached s1).1 pdf (rw (← q) h) in
      record {
        client = c;
        cached = cached;
        fresh = fresh;
        file = file;
        connected = connected;
        is_cached = e;
        answered = refetched-ok name c cached fresh s1 answered;
        same_size = ground (arith, unchanged);
        same_time = ground (arith, unchanged);
        has_checksum = ne-is_empty fresh.md5_checksum (ground (arith, unchanged));
        downloaded = rw (← refetched-remote name c cached s1) downloaded;
        is_file = same;
      }

  -- `ReadPDF` succeeds only for a file of the scan cache whose size and time, fetched again, are those
  -- of the cache and which has a checksum; it returns the download of the cached id, made behind that.
  pub read_pdf-Verified :
      (name : Text) (s : State G) (pdf : LocalPdf (State G))
      → (read_pdf G d name s).0 ≡ ok pdf
      → Verified name s pdf
  unfolding read_pdf
  read_pdf-Verified name s pdf h =
      let (c, connected, p) = >>=-ok (drive_client G d) (read_with G d name) s pdf h in
      read_cached-Verified name c s pdf _ connected refl (rw (← p) h)

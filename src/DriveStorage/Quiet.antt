-- ===== src/DriveStorage/Quiet.antt =====
-- Which methods of the Drive storage change no table.
use paper_claw.Base.{
  ok-injective, Text, Result, ok, err, Method, Option, none, some, Bool-cases, inl, inr, ◌≡◌, refl,
  sym, ap, ◌∙◌, arith,
}
use paper_claw.Base.Dict.{lookup}
use paper_claw.Base.Methods.{◌>>=◌, >>=-cases, >>=-ok}
use paper_claw.Document.Storage.{LocalPdf}
use paper_claw.Store.Sql.{Db}
use paper_claw.DriveStorage.{
  Service, Drive, State, FileInfo, is_unchanged, on_remote, on_db, pure, fail, keep_client,
  client_or_new, drive_client,
}
use paper_claw.DriveStorage.Files.{
  local_pdf, verified, refetched, read_cached, read_with, read_pdf, move_cached, move_with,
  move_to_processed,
}

module _ (G : Service) (d : Drive G) where
  -- The token provider changes no table: it reads the stored token.
  abbrev pub ReadsOnly : Type 0
  ReadsOnly = (db : Db) → (d.get_http db).1.tables ≡ db.tables

  -- A method that changes no table.
  abbrev pub Quiet : {A : Type 0} → Method (State G) A → Type 0
  Quiet m = (s : State G) → (m s).1.db.tables ≡ s.db.tables

  Quiet->>= :
      {A B : Type 0} (m : Method (State G) A) (k : A → Method (State G) B)
      → Quiet m
      → ((a : A) → Quiet (k a))
      → Quiet (m >>= k)
  Quiet->>= m k q r s = elim (>>=-cases m k s) [
    | inl (e, p) ↦ ap (λ t. t.1.db.tables) p ∙ q s
    | inr (a, p) ↦ ap (λ t. t.1.db.tables) p ∙ r a (m s).1 ∙ q s
  ]

  keep_client-Quiet : (r : Result G.Client) → Quiet (keep_client G d r)
  unfolding keep_client
  keep_client-Quiet (err e) s = refl
  keep_client-Quiet (ok c) s = refl

  client_or_new-Quiet : ReadsOnly → (found : Option G.Client) → Quiet (client_or_new G d found)
  unfolding client_or_new on_db
  client_or_new-Quiet reads (some c) s = refl
  client_or_new-Quiet reads none s =
      Quiet->>= (on_db d.get_http) (λ http. keep_client G d (G.new_client http)) (λ t. reads t.db)
        (λ http. keep_client-Quiet (G.new_client http)) s

  drive_client-Quiet : ReadsOnly → Quiet (drive_client G d)
  unfolding drive_client
  drive_client-Quiet reads s = client_or_new-Quiet reads s.client s

  move_cached-Quiet :
      (name : Text) (c : G.Client) (found : Option FileInfo) → Quiet (move_cached G d name c found)
  unfolding move_cached fail on_remote
  move_cached-Quiet name c none s = refl
  move_cached-Quiet name c (some f) s = refl

  pub move_to_processed-Quiet : ReadsOnly → (name : Text) → Quiet (move_to_processed G d name)
  unfolding move_to_processed move_with
  move_to_processed-Quiet reads name =
      Quiet->>= (drive_client G d) (move_with G d name) (drive_client-Quiet reads)
        (λ c s. move_cached-Quiet name c (lookup name s.scan_files) s)

  -- The cleanup of a file that was read only touches the local disk.
  abbrev pub Tidy : LocalPdf (State G) → Type 0
  Tidy pdf = (s : State G) → (pdf.cleanup s).db ≡ s.db

  verified-Tidy :
      (name : Text) (c : G.Client) (cached fresh : FileInfo) (s : State G)
      (pdf : LocalPdf (State G))
      → (verified G d name c cached fresh s).0 ≡ ok pdf
      → Tidy pdf
  unfolding verified fail pure local_pdf
  verified-Tidy name c cached fresh s pdf h t = elim (Bool-cases (is_unchanged cached fresh)) [
    | inl e ↦
        let (got, answer, p) =
          >>=-ok (on_remote (G.download c cached.id)) (λ got. pure (local_pdf G d got)) s pdf
            (rw e at h) in
        let same = ok-injective _ _ (sym (rw e at h) ∙ ap (λ r. r.0) p) in
        ap (λ f. (f.cleanup t).db) same
    | inr e ↦ absurd (ground arith)
  ]

  read_cached-Tidy :
      (name : Text) (c : G.Client) (found : Option FileInfo) (s : State G)
      (pdf : LocalPdf (State G))
      → (read_cached G d name c found s).0 ≡ ok pdf
      → Tidy pdf
  unfolding read_cached fail
  read_cached-Tidy name c none s pdf h = absurd (ground arith)
  read_cached-Tidy name c (some cached) s pdf h =
      let (fresh, answer, p) =
        >>=-ok (refetched G d name c cached) (verified G d name c cached) s pdf h in
      verified-Tidy name c cached fresh (refetched G d name c cached s).1 pdf (rw (← p) h)

  pub read_pdf-Tidy :
      (name : Text) (s : State G) (pdf : LocalPdf (State G))
      → (read_pdf G d name s).0 ≡ ok pdf
      → Tidy pdf
  unfolding read_pdf read_with
  read_pdf-Tidy name s pdf h =
      let (c, connected, p) = >>=-ok (drive_client G d) (read_with G d name) s pdf h in
      let s1 = (drive_client G d s).1 in
      read_cached-Tidy name c (lookup name s1.scan_files) s1 pdf (rw (← p) h)

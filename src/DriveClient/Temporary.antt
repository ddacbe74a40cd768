-- ===== src/DriveClient/Temporary.antt =====
-- Which temporary files the client leaves behind.
use paper_claw.Base.{
  Text, codes, Error, Method, Result, ok, err, Option, none, some, List, [], ◌∷◌, contains, without,
  text_eq_refl, false, ◌≡◌, inl, inr, refl, ap, ◌∙◌, arith,
}
use paper_claw.Base.Methods.{◌>>=◌, >>=-cases, relabel-state}
use paper_claw.Document.Storage.{LocalPdf}
use paper_claw.DriveClient.{
  NewFile, Api, closed, fetched, in_temp, got_body, download, sent, upload_opened, upload_file,
  discarded, upload_temp, upload_bytes,
}

-- The temporary files that there are, and what the documents of package `os` promise of them: a
-- created file has a new name, a removed one is gone, and nothing else creates or removes any.
pub record Temps (A : Api) : Type 0 where
  pub temps : A.Remote → List Text
  pub create_ok :
      (pattern tmp : Text) (s : A.Remote)
      → (A.create_temp pattern s).0 ≡ ok tmp
      → (temps (A.create_temp pattern s).1 ≡ tmp ∷ temps s) × (contains (temps s) tmp ≡ false)
  pub create_err :
      (pattern e : Text) (s : A.Remote)
      → (A.create_temp pattern s).0 ≡ err e
      → temps (A.create_temp pattern s).1 ≡ temps s
  pub remove : (tmp : Text) (s : A.Remote) → temps (A.remove_temp tmp s) ≡ without tmp (temps s)
  pub media : (c : A.Svc) (id : Text) (s : A.Remote) → temps (A.get_media c id s).1 ≡ temps s
  pub copy : (tmp : Text) (b : A.Body) (s : A.Remote) → temps (A.copy_hashed tmp b s).1 ≡ temps s
  pub write : (tmp bytes : Text) (s : A.Remote) → temps (A.write_temp tmp bytes s).1 ≡ temps s
  pub close : (tmp : Text) (s : A.Remote) → temps (A.close_temp tmp s).1 ≡ temps s
  pub create_file :
      (c : A.Svc) (f : NewFile) (content : Option Text) (s : A.Remote)
      → temps (A.create_file c f content s).1 ≡ temps s

without-new : (tmp : Text) (ts : List Text) → contains ts tmp ≡ false → without tmp ts ≡ ts
unfolding without contains
without-new tmp [] h = refl
without-new tmp (t ∷ ts) h = ground (arith, h, without-new tmp ts)

without-first :
    (tmp : Text) (ts : List Text) → contains ts tmp ≡ false → without tmp (tmp ∷ ts) ≡ ts
unfolding without
without-first tmp ts h = rw (text_eq_refl tmp, without-new tmp ts h)

module _ (A : Api) (t : Temps A) where
  removed :
      (tmp : Text) (ts : List Text) (s : A.Remote)
      → t.temps s ≡ tmp ∷ ts
      → contains ts tmp ≡ false
      → t.temps (A.remove_temp tmp s) ≡ ts
  removed tmp ts s h new = t.remove tmp s ∙ ap (without tmp) h ∙ without-first tmp ts new

  -- A download that succeeds leaves one temporary file, its own, which its cleanup removes; one that
  -- fails leaves none.
  pub data Kept (ts : List Text) (run : Result (LocalPdf A.Remote) × A.Remote) : Type 0 where
    kept :
        (pdf : LocalPdf A.Remote)
        → run.0 ≡ ok pdf
        → t.temps run.1 ≡ pdf.local_path ∷ ts
        → ((s : A.Remote) → t.temps s ≡ pdf.local_path ∷ ts → t.temps (pdf.cleanup s) ≡ ts)
        → Kept ts run
    none_left : (e : Error) → run.0 ≡ err e → t.temps run.1 ≡ ts → Kept ts run

  closed-Kept :
      (tmp hash : Text) (ts : List Text) (r : Result (Unit {0}) × A.Remote)
      → contains ts tmp ≡ false
      → t.temps r.1 ≡ tmp ∷ ts
      → Kept ts (closed A tmp hash r)
  unfolding closed
  closed-Kept tmp hash ts (err e, s) new h = none_left _ refl (removed tmp ts s h new)
  closed-Kept tmp hash ts (ok u, s) new h = kept _ refl h (λ s' h'. removed tmp ts s' h' new)

  fetched-Kept :
      (tmp : Text) (ts : List Text) (r : Result Text × A.Remote)
      → contains ts tmp ≡ false
      → t.temps r.1 ≡ tmp ∷ ts
      → Kept ts (fetched A tmp r)
  unfolding fetched
  fetched-Kept tmp ts (err e, s) new h =
      none_left _ refl (removed tmp ts (A.close_temp tmp s).1 (t.close tmp s ∙ h) new)
  fetched-Kept tmp ts (ok hash, s) new h =
      closed-Kept tmp hash ts (A.close_temp tmp s) new (t.close tmp s ∙ h)

  in_temp-Kept :
      (body : A.Body) (ts : List Text) (r : Result Text × A.Remote)
      → ((tmp : Text) → r.0 ≡ ok tmp → (t.temps r.1 ≡ tmp ∷ ts) × (contains ts tmp ≡ false))
      → ((e : Error) → r.0 ≡ err e → t.temps r.1 ≡ ts)
      → Kept ts (in_temp A body r)
  unfolding in_temp
  in_temp-Kept body ts (err e, s) made failed = none_left _ refl (failed e refl)
  in_temp-Kept body ts (ok tmp, s) made failed =
      let (there, new) = made tmp refl in
      fetched-Kept tmp ts (A.copy_hashed tmp body s) new (t.copy tmp body s ∙ there)

  got_body-Kept :
      (id : Text) (ts : List Text) (r : Result A.Body × A.Remote)
      → t.temps r.1 ≡ ts
      → Kept ts (got_body A id r)
  unfolding got_body
  got_body-Kept id ts (err e, s) h = none_left _ refl h
  got_body-Kept id ts (ok body, s) h =
      let pattern = codes "drive-pdf-*.pdf" in
      in_temp-Kept body ts (A.create_temp pattern s)
        (λ tmp done. rw (← h) (t.create_ok pattern tmp s done))
        (λ e failed. t.create_err pattern e s failed ∙ h)

  -- A `download` that succeeds has left exactly one temporary file, and its cleanup removes it; one
  -- that fails, at any step, has left none.
  pub download-Kept : (c : A.Svc) (id : Text) (s : A.Remote) → Kept (t.temps s) (download A c id s)
  unfolding download
  download-Kept c id s = got_body-Kept id (t.temps s) (A.get_media c id s) (t.media c id s)

  -- A call that neither leaves nor removes a temporary file.
  abbrev pub Leaves : {B : Type 0} → Method A.Remote B → Type 0
  Leaves m = (s : A.Remote) → t.temps (m s).1 ≡ t.temps s

  Leaves->>= :
      {B C : Type 0} (m : Method A.Remote B) (k : B → Method A.Remote C)
      → Leaves m
      → ((b : B) → Leaves (k b))
      → Leaves (m >>= k)
  Leaves->>= m k hm hk s = elim (>>=-cases m k s) [
    | inl (e, p) ↦ ap (λ r. t.temps r.1) p ∙ hm s
    | inr (b, p) ↦ ap (λ r. t.temps r.1) p ∙ hk b (m s).1 ∙ hm s
  ]

  sent-Leaves : (c : A.Svc) (parent name src : Text) → Leaves (sent A c parent name src)
  unfolding sent
  sent-Leaves c parent name src =
      let file : NewFile = record { name = name; mime_type = []; parent = parent } in
      Leaves->>= _ (λ _ s. (ok tt, s))
        (λ s.
          ap t.temps (relabel-state _ (A.create_file c file (some src) s))
          ∙ t.create_file c file (some src) s)
        (λ _ s. refl)

  upload_opened-Leaves :
      (c : A.Svc) (parent name src : Text) (opened : Option Error)
      → Leaves (upload_opened A c parent name src opened)
  unfolding upload_opened
  upload_opened-Leaves c parent name src (some e) s = refl
  upload_opened-Leaves c parent name src none s = sent-Leaves c parent name src s

  upload_file-Leaves :
      (c : A.Svc) (parent name src : Text) → Leaves (upload_file A c parent name src)
  unfolding upload_file
  upload_file-Leaves c parent name src s =
      upload_opened-Leaves c parent name src (A.open_local src s) s

  discarded-temps :
      (tmp : Text) (ts : List Text) (r : Result (Unit {0}) × A.Remote)
      → contains ts tmp ≡ false
      → t.temps r.1 ≡ tmp ∷ ts
      → t.temps (discarded A tmp r).1 ≡ ts
  unfolding discarded
  discarded-temps tmp ts (r, s) new h =
      removed tmp ts (A.close_temp tmp s).1 (t.close tmp s ∙ h) new

  upload_temp-temps :
      (c : A.Svc) (parent name bytes : Text) (ts : List Text) (r : Result Text × A.Remote)
      → ((tmp : Text) → r.0 ≡ ok tmp → (t.temps r.1 ≡ tmp ∷ ts) × (contains ts tmp ≡ false))
      → ((e : Error) → r.0 ≡ err e → t.temps r.1 ≡ ts)
      → t.temps (upload_temp A c parent name bytes r).1 ≡ ts
  unfolding upload_temp
  upload_temp-temps c parent name bytes ts (err e, s) made failed = failed e refl
  upload_temp-temps c parent name bytes ts (ok tmp, s) made failed =
      let (there, new) = made tmp refl in
      discarded-temps tmp ts ((A.write_temp tmp bytes >>= λ _. upload_file A c parent name tmp) s)
        new
        (Leaves->>= (A.write_temp tmp bytes) (λ _. upload_file A c parent name tmp)
            (t.write tmp bytes) (λ _. upload_file-Leaves c parent name tmp) s
          ∙ there)

  -- An upload of bytes leaves no temporary file, whatever fails.
  pub upload_bytes-Leaves :
      (c : A.Svc) (parent name bytes : Text) → Leaves (upload_bytes A c parent name bytes)
  unfolding upload_bytes
  upload_bytes-Leaves c parent name bytes s =
      let pattern = codes "drive-upload-*" in
      upload_temp-temps c parent name bytes (t.temps s) (A.create_temp pattern s)
        (λ tmp done. t.create_ok pattern tmp s done) (λ e failed. t.create_err pattern e s failed)

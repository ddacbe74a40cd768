-- ===== src/LocalStorage/Disk.antt =====
-- What the documents of packages `os` and `io` promise of the calls that the local storage makes,
-- and which files its own helpers leave alone.
use paper_claw.Base.{
  Text, Result, ok, err, Method, All, true, Option, none, some, List, [], ◌∷◌, ◌≡◌, ◌≢◌, refl, sym,
  ap, ◌∙◌, inl, inr, arith, ok-injective,
}
use paper_claw.Base.Methods.{◌>>=◌, >>=-cases, >>=-ok}
use paper_claw.LocalStorage.Path.{join_path, is_plain}
use paper_claw.LocalStorage.{Os, copied, copy_opened, copy_file}

-- The file at a path can be read, and holds the bytes.
abbrev pub Holds : (O : Os) → O.Disk → Text → Text → Type 0
Holds O s path bytes = O.read_file s path ≡ ok bytes

-- A call changes no file but its own: it keeps what another path holds, also when it fails.
pub record IsOs (O : Os) : Type 0 where
  pub mkdir_all_keeps :
      (dir : Text) (s : O.Disk) (q b : Text) → Holds O s q b → Holds O (O.mkdir_all dir s).1 q b
  pub write_file_keeps :
      (p bytes : Text) (s : O.Disk) (q b : Text)
      → p ≢ q
      → Holds O s q b
      → Holds O (O.write_file p bytes s).1 q b
  pub create_keeps :
      (p : Text) (s : O.Disk) (q b : Text) → p ≢ q → Holds O s q b → Holds O (O.create p s).1 q b
  pub copy_keeps :
      (src p : Text) (s : O.Disk) (q b : Text)
      → p ≢ q
      → Holds O s q b
      → Holds O (O.copy src p s).1 q b
  pub close_keeps :
      (p : Text) (s : O.Disk) (q b : Text) → p ≢ q → Holds O s q b → Holds O (O.close p s).1 q b
  pub remove_keeps :
      (p : Text) (s : O.Disk) (q b : Text) → p ≢ q → Holds O s q b → Holds O (O.remove p s).1 q b
  pub rename_keeps :
      (src dst : Text) (s : O.Disk) (q b : Text)
      → src ≢ q
      → dst ≢ q
      → Holds O s q b
      → Holds O (O.rename src dst s).1 q b
  pub warn_keeps :
      (line : Text) (s : O.Disk) (q b : Text) → Holds O s q b → Holds O (O.warn line s) q b
  -- What a call that succeeds has done to its own file.
  pub write_file_ok :
      (p bytes : Text) (s : O.Disk)
      → (O.write_file p bytes s).0 ≡ ok tt
      → Holds O (O.write_file p bytes s).1 p bytes
  pub create_ok : (p : Text) (s : O.Disk) → (O.create p s).0 ≡ ok tt → Holds O (O.create p s).1 p []
  pub copy_ok :
      (src p : Text) (s : O.Disk)
      → src ≢ p
      → Holds O s p []
      → (O.copy src p s).0 ≡ ok tt
      → (b : Text) × Holds O s src b × Holds O (O.copy src p s).1 p b
  pub close_ok :
      (p : Text) (s : O.Disk) (b : Text)
      → (O.close p s).0 ≡ ok tt
      → Holds O s p b
      → Holds O (O.close p s).1 p b
  pub rename_ok :
      (src dst : Text) (s : O.Disk) (b : Text)
      → (O.rename src dst s).0 ≡ ok tt
      → Holds O s src b
      → Holds O (O.rename src dst s).1 dst b
  -- A rename that fails has moved nothing.
  pub rename_err :
      (src dst : Text) (s : O.Disk) (e q b : Text)
      → (O.rename src dst s).0 ≡ err e
      → Holds O s q b
      → Holds O (O.rename src dst s).1 q b
  -- `os.Stat` finds what can be read, and the directory that it is in.
  pub stat_file : (s : O.Disk) (q b : Text) → Holds O s q b → O.stat s q ≡ true
  pub stat_dir :
      (s : O.Disk) (dir name b : Text)
      → dir ≢ []
      → is_plain name ≡ true
      → Holds O s (join_path dir name) b
      → O.stat s dir ≡ true

module _ (O : Os) where
  -- A call that changes no file but those of the list.
  abbrev pub Only : {A : Type 0} → List Text → Method O.Disk A → Type 0
  Only paths m =
      (s : O.Disk) (q b : Text) → All (λ p. p ≢ q) paths → Holds O s q b → Holds O (m s).1 q b

  pub Only->>= :
      {A B : Type 0} (paths : List Text) (m : Method O.Disk A) (k : A → Method O.Disk B)
      → Only paths m
      → ((a : A) → Only paths (k a))
      → Only paths (m >>= k)
  Only->>= paths m k hm hk s q b off h = elim (>>=-cases m k s) [
    | inl (e, p) ↦ ap (λ t. O.read_file t.1 q) p ∙ hm s q b off h
    | inr (a, p) ↦ ap (λ t. O.read_file t.1 q) p ∙ hk a (m s).1 q b off (hm s q b off h)
  ]

  module _ (os : IsOs O) where
    copied-keeps :
        (src dst : Text) (r : Result (Unit {0}) × O.Disk) (q b : Text)
        → dst ≢ q
        → Holds O r.1 q b
        → Holds O (copied O dst r).1 q b
    unfolding copied
    copied-keeps src dst (err e, s) q b off h = os.close_keeps dst s q b off h
    copied-keeps src dst (ok u, s) q b off h = os.close_keeps dst s q b off h

    copy_opened-Only :
        (src dst : Text) (opened : Option Text) → Only (dst ∷ []) (copy_opened O src dst opened)
    unfolding copy_opened
    copy_opened-Only src dst (some e) s q b off h = h
    copy_opened-Only src dst none s q b off h =
        Only->>= (dst ∷ []) (O.create dst) (λ _ s. copied O dst (O.copy src dst s))
          (λ t p c o. os.create_keeps dst t p c o.0)
          (λ _ t p c o k.
            copied-keeps src dst (O.copy src dst t) p c o.0 (os.copy_keeps src dst t p c o.0 k))
          s q b off h

    -- `copyFile` changes at most the copy.
    pub copy_file-Only : (src dst : Text) → Only (dst ∷ []) (copy_file O src dst)
    unfolding copy_file
    copy_file-Only src dst s = copy_opened-Only src dst (O.open_to_read s src) s

    copied-ok :
        (dst : Text) (r : Result (Unit {0}) × O.Disk)
        → (copied O dst r).0 ≡ ok tt
        → (r.0 ≡ ok tt) × ((O.close dst r.1).0 ≡ ok tt) × (copied O dst r ≡ O.close dst r.1)
    unfolding copied
    copied-ok dst (err e, s) h = absurd (ground arith)
    copied-ok dst (ok u, s) h = (refl, h, refl)

    copy_opened-ok :
        (src dst : Text) (opened : Option Text) (s : O.Disk)
        → src ≢ dst
        → (copy_opened O src dst opened s).0 ≡ ok tt
        → (b : Text) × Holds O (copy_opened O src dst opened s).1 dst b
          × ((c : Text) → Holds O s src c → c ≡ b)
    unfolding copy_opened
    copy_opened-ok src dst (some e) s off h = absurd (ground arith)
    copy_opened-ok src dst none s off h =
        let (u, created, p) =
          >>=-ok (O.create dst) (λ _ t. copied O dst (O.copy src dst t)) s tt h in
        let s1 = (O.create dst s).1 in
        let (copy_done, closed, q) =
          copied-ok dst (O.copy src dst s1) (ap (λ r. r.0) (sym p) ∙ h) in
        let (b, original, copy) =
          os.copy_ok src dst s1 off (os.create_ok dst s created) copy_done in
        (
          b,
          ap (λ r. O.read_file r.1 dst) (p ∙ q)
              ∙ os.close_ok dst (O.copy src dst s1).1 b closed copy,
          λ c there.
              ok-injective c b
                (sym (os.create_keeps dst s src c (λ e. off (sym e)) there) ∙ original),
        )

    -- A copy that succeeds holds what the original holds.
    pub copy_file-ok :
        (src dst : Text) (s : O.Disk) (c : Text)
        → src ≢ dst
        → Holds O s src c
        → (copy_file O src dst s).0 ≡ ok tt
        → Holds O (copy_file O src dst s).1 dst c
    unfolding copy_file
    copy_file-ok src dst s c off there h =
        let (b, held, same) = copy_opened-ok src dst (O.open_to_read s src) s off h in
        held ∙ ap ok (sym (same c there))

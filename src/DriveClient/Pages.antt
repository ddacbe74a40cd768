-- ===== src/DriveClient/Pages.antt =====
-- The pages of a listing: the loop returns all of them, and ends if they do.
use paper_claw.Base.{
  ℕ, zero, suc, ◌≤◌, Text, Result, ok, err, true, false, Bool-cases, is_empty, List, [], ◌++◌, ◌≡◌,
  inl, inr, refl, arith, ok-injective,
}
use paper_claw.Store.Sql.{Rfc3339}
use paper_claw.DriveStorage.{FileInfo}
use paper_claw.DriveClient.{
  Page, Api, infos, with_earlier, after_page, list_pages, folder_query, list_folder,
}

module _ (A : Api) (rfc : Rfc3339) (c : A.Svc) (folder q : Text) where
  -- From a page token on, the service has so many pages, with these files.
  pub data Pages : ℕ → Text → A.Remote → List FileInfo → A.Remote → Type 0 where
    last_page :
        (token : Text) (s s' : A.Remote) (page : Page)
        → A.list_page c q token s ≡ (ok page, s')
        → is_empty page.next_page_token ≡ true
        → Pages 1 token s (infos A rfc page) s'
    more_pages :
        (n : ℕ) (token : Text) (s s1 s' : A.Remote) (page : Page) (files : List FileInfo)
        → A.list_page c q token s ≡ (ok page, s1)
        → is_empty page.next_page_token ≡ false
        → Pages n page.next_page_token s1 files s'
        → Pages (suc n) token s (infos A rfc page ++ files) s'

  -- As many rounds as there are pages are enough.
  Pages-list_pages :
      (n fuel : ℕ) (token : Text) (s s' : A.Remote) (files : List FileInfo)
      → Pages n token s files s'
      → n ≤ fuel
      → list_pages A rfc fuel c folder q token s ≡ (ok files, s')
  unfolding list_pages after_page with_earlier
  Pages-list_pages n zero token s s' files (last_page _ _ _ page p e) le = absurd (omega arith)
  Pages-list_pages n (suc fuel) token s s' files (last_page _ _ _ page p e) le =
      rw (p, after_page, e)
  Pages-list_pages n zero token s s' files (more_pages m _ _ s1 _ page rest p e ps) le =
      absurd (omega arith)
  Pages-list_pages n (suc fuel) token s s' files (more_pages m _ _ s1 _ page rest p e ps) le = rw (
    p,
    after_page,
    e,
    Pages-list_pages m fuel page.next_page_token s1 s' rest ps (omega arith),
    with_earlier,
  )

  -- A listing that succeeded has read its pages to the last one.
  abbrev Read : ℕ → Text → A.Remote → Result (List FileInfo) × A.Remote → Type 0
  Read fuel token s run =
      (files : List FileInfo)
      → run.0 ≡ ok files
      → (n : ℕ) × (n ≤ fuel) × Pages n token s files run.1

  with_earlier-Read :
      (fuel : ℕ) (token : Text) (s s1 : A.Remote) (page : Page)
      (rest : Result (List FileInfo) × A.Remote)
      → A.list_page c q token s ≡ (ok page, s1)
      → is_empty page.next_page_token ≡ false
      → Read fuel page.next_page_token s1 rest
      → Read (suc fuel) token s (with_earlier A rfc (infos A rfc page) rest)
  unfolding with_earlier
  with_earlier-Read fuel token s s1 page (err e, t) p more read files h = absurd (ground arith)
  with_earlier-Read fuel token s s1 page (ok later, t) p more read files h =
      let (n, le, pages) = read later refl in
      (
        suc n,
        omega (arith, le),
        rw (← ok-injective _ files h) (more_pages n token s s1 t page later p more pages),
      )

  after_page-Read :
      (fuel : ℕ) (token : Text) (s : A.Remote) (got : Result Page × A.Remote)
      → A.list_page c q token s ≡ got
      → ((next : Text) (t : A.Remote) → Read fuel next t (list_pages A rfc fuel c folder q next t))
      → Read (suc fuel) token s (after_page A rfc folder (list_pages A rfc fuel c folder q) got)
  unfolding after_page
  after_page-Read fuel token s (err e, t) p rest files h = absurd (ground arith)
  after_page-Read fuel token s (ok page, t) p rest files h =
      elim (Bool-cases (is_empty page.next_page_token)) [
        | inl e ↦ (
          1,
          omega arith,
          rw (e, ← ok-injective (infos A rfc page) files (rw e at h))
              (last_page token s t page p e),
        )
        | inr e ↦ rw e (
            with_earlier-Read fuel token s t page
              (list_pages A rfc fuel c folder q page.next_page_token t) p e
              (rest page.next_page_token t) files (rw e at h))
      ]

  list_pages-Read :
      (fuel : ℕ) (token : Text) (s : A.Remote)
      → Read fuel token s (list_pages A rfc fuel c folder q token s)
  unfolding list_pages
  list_pages-Read zero token s files h = absurd (ground arith)
  list_pages-Read (suc fuel) token s files h =
      after_page-Read fuel token s (A.list_page c q token s) refl
        (λ next t. list_pages-Read fuel next t) files h

module _ (A : Api) (rfc : Rfc3339) (c : A.Svc) (folder mime : Text) where
  -- If the service's listing of a folder has n pages, `listFolder` ends within n rounds and returns
  -- the files of all of them, in order; and a listing that succeeds is that of all pages.
  pub list_folder-Pages :
      (fuel : ℕ) (s : A.Remote) (files : List FileInfo)
      → ((n : ℕ) (s' : A.Remote)
          → Pages A rfc c folder (folder_query folder mime) n [] s files s'
          → n ≤ fuel
          → list_folder A rfc fuel c folder mime s ≡ (ok files, s'))
        × ((list_folder A rfc fuel c folder mime s).0 ≡ ok files
            → (n : ℕ) × (n ≤ fuel)
              × Pages A rfc c folder
                  (folder_query folder mime)
                  n
                  []
                  s
                  files
                  (list_folder A rfc fuel c folder mime s).1)
  unfolding list_folder
  list_folder-Pages fuel s files =
      let q = folder_query folder mime in
      (
        λ n s' pages le. Pages-list_pages A rfc c folder q n fuel [] s s' files pages le,
        list_pages-Read A rfc c folder q fuel [] s files,
      )

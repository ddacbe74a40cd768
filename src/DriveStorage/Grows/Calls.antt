-- ===== src/DriveStorage/Grows/Calls.antt =====
-- internal/storage/drive/drive.go: what one call of a method does to the dedup index: no hash leaves it.
use paper_claw.Base.{Text, Result, ok, err, Method, Option, none, some, [], map, inl, inr}
use paper_claw.Base.Methods.{◌>>=◌, >>=-cases}
use paper_claw.Store.Sql.{Db}
use paper_claw.Store.Grows.{Grows, Grows-refl, Grows-trans}
use paper_claw.DriveStorage.{
  Service, Drive, State, on_remote, on_db, pure, fail, keep_client, client_or_new, drive_client,
}
use paper_claw.DriveStorage.Files.{folder_child_names}

module _ (G : Service) (d : Drive G) where
  -- The token provider takes nothing out of the store either.
  abbrev pub ProviderGrows : Type 0
  ProviderGrows = (db : Db) → Grows db (d.get_http db).1

  abbrev pub Grow : {A : Type 0} → Method (State G) A → Type 0
  Grow m = (s : State G) → Grows s.db (m s).1.db

  pub Grow->>= :
      {A B : Type 0} (m : Method (State G) A) (k : A → Method (State G) B)
      → Grow m
      → ((a : A) → Grow (k a))
      → Grow (m >>= k)
  Grow->>= m k p q s = elim (>>=-cases m k s) [
    | inl (e, r) ↦ rw r (p s)
    | inr (a, r) ↦ rw r (Grows-trans (p s) (q a (m s).1))
  ]

  pub on_remote-Grow : {A : Type 0} (m : Method G.Remote A) → Grow (on_remote m)
  unfolding on_remote
  on_remote-Grow m s = Grows-refl s.db

  pub pure-Grow : {A : Type 0} (a : A) → Grow (pure a)
  unfolding pure
  pure-Grow a s = Grows-refl s.db

  pub fail-Grow : (A : Type 0) (e : Text) → Grow (fail {G = G} {A = A} e)
  unfolding fail
  fail-Grow A e s = Grows-refl s.db

  keep_client-Grow : (r : Result G.Client) → Grow (keep_client G d r)
  unfolding keep_client
  keep_client-Grow (err e) s = Grows-refl s.db
  keep_client-Grow (ok c) s = Grows-refl s.db

  pub folder_child_names-Grow :
      (c : G.Client) (folder : Text) → Grow (folder_child_names G d c folder)
  unfolding folder_child_names
  folder_child_names-Grow c folder =
      Grow->>= (on_remote (G.list_folder c folder [])) (λ items. pure (map (λ f. f.name) items))
        (on_remote-Grow _) (λ items. pure-Grow _)

  module _ (provider : ProviderGrows) where
    client_or_new-Grow : (found : Option G.Client) → Grow (client_or_new G d found)
    unfolding client_or_new on_db
    client_or_new-Grow (some c) s = Grows-refl s.db
    client_or_new-Grow none s =
        Grow->>= (on_db d.get_http) (λ http. keep_client G d (G.new_client http))
          (λ t. provider t.db) (λ http. keep_client-Grow (G.new_client http)) s

    pub drive_client-Grow : Grow (drive_client G d)
    unfolding drive_client
    drive_client-Grow s = client_or_new-Grow s.client s

-- ===== src/Tests/Memory.antt =====
-- A disk in memory, which does what the laws of the operating system say. On one kind of it no file
-- can be renamed, as between two devices.
use paper_claw.Base.{
  Text, codes, Result, ok, err, Bool, true, false, ◌||◌, Option, none, some, List, [], ◌∷◌, ◌++◌,
  contains, text_eq, text_eq_iff, text_eq_refl, if◌then◌else◌, ◌==◌, ◌≡◌, ◌≢◌, refl, ap, ◌∙◌, arith,
  Bool-cases, inl, inr, ok-injective,
}
use paper_claw.Base.Dict.{Dict, keys, lookup, insert, lookup-insert}
use paper_claw.Tests.Data.{bill}
use paper_claw.LocalStorage.{DirEntry, Os}
use paper_claw.LocalStorage.Path.{join_path, is_plain}
use paper_claw.LocalStorage.Path.Plain.{join_path-suffix}
use paper_claw.LocalStorage.Disk.{IsOs}

pub record Memory : Type 0 where
  pub files : Dict Text
  pub dirs : List Text
  pub stderr : List Text
  pub stdout : List Text
  pub terminal : Bool
  pub two_devices : Bool

-- The dictionary without a key.
abbrev pub delete : Text → Dict Text → Dict Text
delete k [] = []
delete k ((j, v) ∷ d) = let rest = delete k d in if text_eq j k then rest else (j, v) ∷ rest

lookup-delete : (k j : Text) (d : Dict Text) → k ≢ j → lookup j (delete k d) ≡ lookup j d
unfolding lookup
lookup-delete k j [] off = refl
lookup-delete k j ((i, v) ∷ d) off =
    ground (arith, text_eq_iff i k, text_eq_iff i j, lookup-delete k j d off)

-- Some end of the text passes the test.
abbrev pub any_end : (Text → Bool) → Text → Bool
any_end f [] = f []
any_end f (c ∷ s) = f (c ∷ s) || any_end f s

any_end-append : (f : Text → Bool) (s t : Text) → f t ≡ true → any_end f (s ++ t) ≡ true
any_end-append f [] [] h = h
any_end-append f [] (c ∷ t) h = ground (arith, h)
any_end-append f (c ∷ s) t h = ground (arith, any_end-append f s t h)

-- A file of the list is at the path or in a directory there.
abbrev pub is_within : Text → Text → Bool
is_within path k = text_eq k path || any_end (λ name. text_eq (join_path path name) k) k

abbrev pub has_file : Text → List Text → Bool
has_file path [] = false
has_file path (k ∷ ks) = is_within path k || has_file path ks

-- The last element of a path.
abbrev pub has_slash : Text → Bool
has_slash [] = false
has_slash (c ∷ s) = c == b'/' || has_slash s

abbrev pub base : Text → Text
base [] = []
base (c ∷ s) = let rest = base s in if has_slash s then rest else if c == b'/' then s else c ∷ s

abbrev pub children : Bool → Text → List Text → List DirEntry
children is_dir dir [] = []
children is_dir dir (p ∷ ps) =
    let rest = children is_dir dir ps in
    if text_eq (join_path dir (base p)) p
    then record { name = base p; is_dir = is_dir } ∷ rest
    else rest

abbrev missing : Text
missing = codes "no such file or directory"

abbrev pub read_at : Text → Option Text → Result Text
read_at path none = err missing
read_at path (some b) = ok b

abbrev pub put : Text → Text → Memory → Memory
put path bytes s = record s { files = insert path bytes s.files }

abbrev pub copy_from : Text → Option Text → Memory → Result (Unit {0}) × Memory
copy_from dst none s = (err missing, s)
copy_from dst (some b) s = (ok tt, put dst b s)

abbrev pub rename_from : Text → Text → Option Text → Memory → Result (Unit {0}) × Memory
rename_from src dst none s = (err missing, s)
rename_from src dst (some b) s =
    if s.two_devices
    then (err (codes "invalid cross-device link"), s)
    else (ok tt, put dst b (record s { files = delete src s.files }))

abbrev pub opened : Option Text → Option Text
opened none = some missing
opened (some b) = none

-- The text without its last character, a line feed.
abbrev pub chomp : Text → Text
chomp [] = []
chomp (c ∷ []) = []
chomp (c ∷ e ∷ s) = c ∷ chomp (e ∷ s)

abbrev pub memory : Os
memory = record {
  Disk = Memory;
  read_dir = λ s dir.
      if contains s.dirs dir
      then ok (children true dir s.dirs ++ children false dir (keys s.files))
      else err missing;
  is_not_exist = λ e. text_eq e missing;
  stat = λ s p. contains s.dirs p || has_file p (keys s.files);
  read_file = λ s p. read_at p (lookup p s.files);
  open_to_read = λ s p. opened (lookup p s.files);
  mkdir_all = λ dir s. (ok tt, record s { dirs = dir ∷ s.dirs });
  write_file = λ p bytes s. (ok tt, put p bytes s);
  create = λ p s. (ok tt, put p [] s);
  copy = λ src p s. copy_from p (lookup src s.files) s;
  close = λ p s. (ok tt, s);
  rename = λ src dst s. rename_from src dst (lookup src s.files) s;
  remove = λ p s. (ok tt, record s { files = delete p s.files });
  warn = λ line s. record s { stderr = line ∷ s.stderr };
  hex_digest = λ bytes. bytes;
  marshal_metadata = λ m. ok m.content_hash;
  unmarshal_metadata = λ text. ok (record bill { content_hash = chomp text });
  marshal_error = λ e. ok e.error;
}

unequal : (p q : Text) → p ≢ q → text_eq p q ≡ false
unequal p q off = elim (Bool-cases (text_eq p q)) [
  | inl same ↦ absurd (off ((text_eq_iff p q).0 same))
  | inr other ↦ other
]

lookup-put :
    (p bytes : Text) (s : Memory) (q : Text)
    → p ≢ q
    → lookup q (put p bytes s).files ≡ lookup q s.files
lookup-put p bytes s q off = rw (lookup-insert p q bytes s.files, unequal p q off)

lookup-put_same : (p bytes : Text) (s : Memory) → lookup p (put p bytes s).files ≡ some bytes
lookup-put_same p bytes s = rw (lookup-insert p p bytes s.files, text_eq_refl p)

read_at-ok : (p b : Text) (r : Option Text) → read_at p r ≡ ok b → r ≡ some b
read_at-ok p b none h = absurd (ground (arith, h))
read_at-ok p b (some c) h = ap some (ok-injective c b h)

copy_from-keeps :
    (dst : Text) (r : Option Text) (s : Memory) (q : Text)
    → dst ≢ q
    → lookup q (copy_from dst r s).1.files ≡ lookup q s.files
copy_from-keeps dst none s q off = refl
copy_from-keeps dst (some b) s q off = lookup-put dst b s q off

copy_from-ok :
    (src dst : Text) (r : Option Text) (s : Memory)
    → (copy_from dst r s).0 ≡ ok tt
    → (b : Text) × (read_at src r ≡ ok b) × (lookup dst (copy_from dst r s).1.files ≡ some b)
copy_from-ok src dst none s h = absurd (ground (arith, h))
copy_from-ok src dst (some b) s h = (b, refl, lookup-put_same dst b s)

rename_from-keeps :
    (src dst : Text) (r : Option Text) (s : Memory) (q : Text)
    → src ≢ q
    → dst ≢ q
    → lookup q (rename_from src dst r s).1.files ≡ lookup q s.files
rename_from-keeps src dst none s q off off' = refl
rename_from-keeps src dst (some b) s q off off' = elim (Bool-cases s.two_devices) [
  | inl two ↦ rw two
  | inr one ↦
      rw (one, lookup-put dst b (record s { files = delete src s.files }) q off')
        (lookup-delete src q s.files off)
]

rename_from-ok :
    (src dst : Text) (r : Option Text) (s : Memory) (b : Text)
    → (rename_from src dst r s).0 ≡ ok tt
    → r ≡ some b
    → lookup dst (rename_from src dst r s).1.files ≡ some b
rename_from-ok src dst none s b h there = absurd (ground (arith, h))
rename_from-ok src dst (some c) s b h there = elim (Bool-cases s.two_devices) [
  | inl two ↦ absurd (ground (arith, rw two at h))
  | inr one ↦ rw (one, lookup-put_same dst c (record s { files = delete src s.files })) there
]

rename_from-err :
    (src dst : Text) (r : Option Text) (s : Memory) (e q : Text)
    → (rename_from src dst r s).0 ≡ err e
    → lookup q (rename_from src dst r s).1.files ≡ lookup q s.files
rename_from-err src dst none s e q h = refl
rename_from-err src dst (some c) s e q h = elim (Bool-cases s.two_devices) [
  | inl two ↦ rw two
  | inr one ↦ absurd (ground (arith, rw one at h))
]

-- A file that can be read is found, and so is its directory.
has_file-lookup :
    (path k b : Text) (files : Dict Text)
    → lookup k files ≡ some b
    → is_within path k ≡ true
    → has_file path (keys files) ≡ true
unfolding lookup keys
has_file-lookup path k b [] h hit = absurd (ground (arith, h))
has_file-lookup path k b ((j, c) ∷ files) h hit = elim (Bool-cases (text_eq j k)) [
  | inl same ↦ rw ((text_eq_iff j k).0 same) (ground (arith, hit))
  | inr other ↦ ground (arith, has_file-lookup path k b files (rw other at h) hit)
]

is_within-join :
    (dir name : Text) → dir ≢ [] → is_plain name ≡ true → is_within dir (join_path dir name) ≡ true
is_within-join dir name full plain =
    let (before, p) = join_path-suffix dir name full plain in
    let hit : any_end (λ n. text_eq (join_path dir n) (join_path dir name)) (before ++ name)
        ≡ true =
      any_end-append (λ n. text_eq (join_path dir n) (join_path dir name)) before name
        (text_eq_refl (join_path dir name)) in
    let found = ap (any_end (λ n. text_eq (join_path dir n) (join_path dir name))) p ∙ hit in
    ground (arith, found)

is_within_self : (path : Text) → is_within path path ≡ true
is_within_self path = ground (arith, text_eq_refl path)

pub memory-IsOs : IsOs memory
memory-IsOs = record {
  mkdir_all_keeps = λ dir s q b h. h;
  write_file_keeps = λ p bytes s q b off h. ap (read_at q) (lookup-put p bytes s q off) ∙ h;
  create_keeps = λ p s q b off h. ap (read_at q) (lookup-put p [] s q off) ∙ h;
  copy_keeps =
      λ src p s q b off h. ap (read_at q) (copy_from-keeps p (lookup src s.files) s q off) ∙ h;
  close_keeps = λ p s q b off h. h;
  remove_keeps = λ p s q b off h. ap (read_at q) (lookup-delete p q s.files off) ∙ h;
  rename_keeps = λ src dst s q b off off' h.
      ap (read_at q) (rename_from-keeps src dst (lookup src s.files) s q off off') ∙ h;
  warn_keeps = λ line s q b h. h;
  write_file_ok = λ p bytes s h. ap (read_at p) (lookup-put_same p bytes s);
  create_ok = λ p s h. ap (read_at p) (lookup-put_same p [] s);
  copy_ok = λ src p s off empty h.
      let (b, r, there) = copy_from-ok src p (lookup src s.files) s h in
      (b, r, ap (read_at p) there);
  close_ok = λ p s b done h. h;
  rename_ok = λ src dst s b done h. ap (read_at dst) (
      rename_from-ok src dst (lookup src s.files) s b done
        (read_at-ok src b (lookup src s.files) h));
  rename_err = λ src dst s e q b failed h.
      ap (read_at q) (rename_from-err src dst (lookup src s.files) s e q failed) ∙ h;
  stat_file = λ s q b h.
      let found =
        has_file-lookup q q b s.files (read_at-ok q b (lookup q s.files) h) (is_within_self q) in
      ground (arith, found);
  stat_dir = λ s dir name b full plain h.
      let k = join_path dir name in
      let found =
        has_file-lookup dir k b s.files (read_at-ok k b (lookup k s.files) h)
          (is_within-join dir name full plain) in
      ground (arith, found);
}

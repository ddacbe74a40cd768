-- ===== src/DriveStorage/Cache/Files.antt =====
-- internal/storage/drive/drive.go: the loop of ListInbox, by the files that are settled.
use paper_claw.Base.{
  ℕ, Text, Bool, true, false, Option, none, some, List, [], ◌∷◌, text_eq, text_eq_iff, ne-is_empty,
  is_empty-ne, ◌&&◌, if◌then◌else◌, Bool-cases, inl, inr, ◌≡◌, refl, arith, ◌≢◌, ◌≤◌, ◌+◌, ◌++◌,
  All,
}
use paper_claw.Base.Dict.{Dict, lookup, insert, lookup-insert}
use paper_claw.DriveStorage.{FileInfo, is_stable, scan}

-- The names of the stable files, in the order of the listing.
pub stable_names : ℕ → ℕ → List FileInfo → List Text
stable_names now threshold [] = []
stable_names now threshold (f ∷ fs) =
    let rest = stable_names now threshold fs in
    if is_stable now threshold f then f.name ∷ rest else rest

pub or_else : {A : Type 0} → Option A → Option A → Option A
or_else none b = b
or_else (some a) b = some a

-- The last stable file with a name.
pub last_stable : ℕ → ℕ → Text → List FileInfo → Option FileInfo
unfolding or_else
last_stable now threshold name [] = none
last_stable now threshold name (f ∷ fs) =
    or_else (last_stable now threshold name fs)
      (if is_stable now threshold f && text_eq f.name name then some f else none)

pub scan_names :
    (now threshold : ℕ) (fs : List FileInfo) (cache : Dict FileInfo)
    → (scan now threshold fs cache).0 ≡ stable_names now threshold fs
unfolding scan stable_names
scan_names now threshold [] cache = refl
scan_names now threshold (f ∷ fs) cache = rw (scan_names now threshold fs) refl

lookup-remember :
    (stable : Bool) (f : FileInfo) (name : Text) (cache : Dict FileInfo)
    → lookup name (if stable then insert f.name f cache else cache)
      ≡ or_else (if stable && text_eq f.name name then some f else none) (lookup name cache)
unfolding or_else
lookup-remember true f name cache = ground (arith, lookup-insert f.name name f cache)
lookup-remember false f name cache = refl

or_else_assoc : {A : Type 0} (a b c : Option A) → or_else a (or_else b c) ≡ or_else (or_else a b) c
unfolding or_else
or_else_assoc none b c = refl
or_else_assoc (some a) b c = refl

pub lookup-scan :
    (now threshold : ℕ) (name : Text) (fs : List FileInfo) (cache : Dict FileInfo)
    → lookup name (scan now threshold fs cache).1
      ≡ or_else (last_stable now threshold name fs) (lookup name cache)
unfolding scan last_stable
lookup-scan now threshold name [] cache = unfold or_else in refl
lookup-scan now threshold name (f ∷ fs) cache =
    rw
      (
        lookup-scan now threshold name fs,
        lookup-remember (is_stable now threshold f) f name cache,
        or_else_assoc,
      )
      refl

pub or_else-none : {A : Type 0} (a : Option A) → or_else a none ≡ a
unfolding or_else
or_else-none none = refl
or_else-none (some a) = refl

-- A file that is worth reading at a time: it has a checksum, and it was not modified within the
-- threshold before it.
pub record IsSettled (now threshold : ℕ) (f : FileInfo) : Type 0 where
  pub has_checksum : f.md5_checksum ≢ []
  pub is_old : f.modified_time + threshold ≤ now

-- The names of the settled files, in the order of the listing.
pub data Settled (now threshold : ℕ) : List FileInfo → List Text → Type 0 where
  no_more : Settled now threshold [] []
  taken :
      (f : FileInfo) (fs : List FileInfo) (names : List Text)
      → IsSettled now threshold f
      → Settled now threshold fs names
      → Settled now threshold (f ∷ fs) (f.name ∷ names)
  passed_over :
      (f : FileInfo) (fs : List FileInfo) (names : List Text)
      → ¬ IsSettled now threshold f
      → Settled now threshold fs names
      → Settled now threshold (f ∷ fs) names

-- The last settled file with a name, or that there is none.
pub data Last (now threshold : ℕ) (name : Text) : List FileInfo → Option FileInfo → Type 0 where
  absent :
      (fs : List FileInfo)
      → All (λ f. ¬ (IsSettled now threshold f × (f.name ≡ name))) fs
      → Last now threshold name fs none
  present :
      (before : List FileInfo) (f : FileInfo) (later : List FileInfo)
      → IsSettled now threshold f
      → f.name ≡ name
      → All (λ f. ¬ (IsSettled now threshold f × (f.name ≡ name))) later
      → Last now threshold name (before ++ f ∷ later) (some f)

is_stable-IsSettled :
    (now threshold : ℕ) (f : FileInfo)
    → is_stable now threshold f ≡ true
    → IsSettled now threshold f
is_stable-IsSettled now threshold f h = record {
  has_checksum = ne-is_empty f.md5_checksum (ground (arith, h));
  is_old = ground (arith, h);
}

IsSettled-is_stable :
    (now threshold : ℕ) (f : FileInfo)
    → IsSettled now threshold f
    → is_stable now threshold f ≡ true
IsSettled-is_stable now threshold f is =
    ground (arith, is.is_old, is_empty-ne f.md5_checksum is.has_checksum)

pub stable_names-Settled :
    (now threshold : ℕ) (fs : List FileInfo)
    → Settled now threshold fs (stable_names now threshold fs)
unfolding stable_names
stable_names-Settled now threshold [] = no_more
stable_names-Settled now threshold (f ∷ fs) =
    let later = stable_names-Settled now threshold fs in
    elim (Bool-cases (is_stable now threshold f)) [
      | inl e ↦ rw e (taken f fs _ (is_stable-IsSettled now threshold f e) later)
      | inr e ↦
          rw e (passed_over f fs _ (λ is. cc (e, IsSettled-is_stable now threshold f is)) later)
    ]

-- A file before the others is the last one if none of them is.
Last-before :
    (now threshold : ℕ) (name : Text) (f : FileInfo) (fs : List FileInfo) (found : Option FileInfo)
    → Last now threshold name fs found
    → Last now threshold name
        (f ∷ fs)
        (or_else found (if is_stable now threshold f && text_eq f.name name then some f else none))
unfolding or_else
Last-before now threshold name f _ _ (present before g later settled named rest) =
    present (f ∷ before) g later settled named rest
Last-before now threshold name f fs _ (absent _ others) =
    elim (Bool-cases (is_stable now threshold f && text_eq f.name name)) [
      | inl e ↦ rw e (
          present [] f fs (is_stable-IsSettled now threshold f (ground (arith, e)))
            ((text_eq_iff f.name name).0 (ground (arith, e))) others)
      | inr e ↦ rw e (
          absent (f ∷ fs) (
            λ (is, named). ground (
              arith,
              e,
              IsSettled-is_stable now threshold f is,
              (text_eq_iff f.name name).1 named,
            ),
            others,
          ))
    ]

pub last_stable-Last :
    (now threshold : ℕ) (name : Text) (fs : List FileInfo)
    → Last now threshold name fs (last_stable now threshold name fs)
unfolding last_stable
last_stable-Last now threshold name [] = absent [] tt
last_stable-Last now threshold name (f ∷ fs) =
    Last-before now threshold name f fs _ (last_stable-Last now threshold name fs)

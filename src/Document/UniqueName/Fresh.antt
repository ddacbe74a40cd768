-- ===== src/Document/UniqueName/Fresh.antt =====
-- `UniqueDirName` ends when finitely many names are taken, and returns the first free name.
use mathlib.Core.List.{append_cancel_left}
use paper_claw.Base.{
  ℕ, zero, suc, ◌+◌, ◌≤◌, ◌<◌, Text, Bool, true, false, codes, some, List, length, ◌⊎◌, inl, inr,
  text_eq_iff, contains, without, length-without, contains-without, ◌==◌, ==_iff, Bool-cases, ◌≡◌,
  refl, arith,
}
use paper_claw.Document.UniqueName.Decimal.{itoa-injective}
use paper_claw.Document.UniqueName.{candidate, unique_loop, unique_dir_name}

-- The first free candidate at or after number `i`.
pub record FirstFree (base : Text) (exists : Text → Bool) (i : ℕ) (name : Text) : Type 0 where
  pub number : ℕ
  pub at_or_after : i ≤ number
  pub is_candidate : name ≡ candidate base number
  pub is_free : exists name ≡ false
  pub earlier_taken : (j : ℕ) → i ≤ j → j < number → exists (candidate base j) ≡ true

candidate-injective : (base : Text) (i j : ℕ) → candidate base i ≡ candidate base j → i ≡ j
unfolding candidate
candidate-injective base i j p =
    itoa-injective i j (append_cancel_left (codes "-") _ _ (append_cancel_left base _ _ p))

-- Each round finds a free name or uses up one of the taken ones.
unique_loop-FirstFree :
    (fuel : ℕ) (base : Text) (exists : Text → Bool) (i : ℕ) (taken : List Text)
    → ((j : ℕ)
        → i ≤ j
        → j ≤ i + length taken
        → exists (candidate base j) ≡ true
        → contains taken (candidate base j) ≡ true)
    → length taken < fuel
    → (name : Text) × (unique_loop fuel base exists i ≡ some name) × FirstFree base exists i name
unfolding unique_loop
unique_loop-FirstFree zero base exists i taken finite h = elim h [ ]
unique_loop-FirstFree (suc fuel) base exists i taken finite h =
    elim (Bool-cases (exists (candidate base i))) [
      | inl busy ↦
          let listed = finite i (omega arith) (omega arith) busy in
          let fewer = length-without (candidate base i) taken listed in
          let (name, found, first) =
            unique_loop-FirstFree fuel base exists (i + 1) (without (candidate base i) taken)
              (λ j le most e. rw contains-without (
                ground (
                  arith,
                  text_eq_iff (candidate base i) (candidate base j),
                  candidate-injective base i j,
                  finite j (omega arith) (omega (arith, fewer, most)) e,
                )))
              (omega (arith, fewer)) in
          (
            name,
            rw busy found,
            record {
              number = first.number;
              at_or_after = omega (arith, first.at_or_after);
              is_candidate = first.is_candidate;
              is_free = first.is_free;
              earlier_taken = λ j from below. elim (Bool-cases (i == j)) [
                | inl here ↦ rw (← (==_iff i j).0 here) busy
                | inr later ↦ first.earlier_taken j (ground arith) below
              ];
            },
          )
      | inr free ↦ (
        candidate base i,
        rw free,
        record {
          number = i;
          at_or_after = omega arith;
          is_candidate = refl;
          is_free = free;
          earlier_taken = λ j from below. absurd (omega arith);
        },
      )
    ]

-- `base` if it is free, else the first free one of `base-2`, `base-3`, …
abbrev pub IsFirstFree : Text → (Text → Bool) → Text → Type 0
IsFirstFree base exists name =
    ((name ≡ base) × (exists base ≡ false)) ⊎ ((exists base ≡ true) × FirstFree base exists 2 name)

-- It is enough that of the first candidates those that exist are among the names.
pub unique_dir_name-candidates :
    (base : Text) (exists : Text → Bool) (taken : List Text)
    → ((i : ℕ)
        → i ≤ 2 + length taken
        → exists (candidate base i) ≡ true
        → contains taken (candidate base i) ≡ true)
    → (name : Text) × (unique_dir_name (suc (length taken)) base exists ≡ some name)
      × IsFirstFree base exists name
unfolding unique_dir_name
unique_dir_name-candidates base exists taken finite = elim (Bool-cases (exists base)) [
  | inl busy ↦
      let (name, found, first) =
        unique_loop-FirstFree (suc (length taken)) base exists 2 taken (λ j _ most. finite j most)
          (omega arith) in
      (name, rw busy found, inr (busy, first))
  | inr free ↦ (base, rw free, inl (refl, free))
]

-- If every name that exists is among finitely many, as many rounds as there are of them and one
-- more are enough: `UniqueDirName` ends, and returns the first free name.
pub unique_dir_name-IsFirstFree :
    (base : Text) (exists : Text → Bool) (taken : List Text)
    → ((name : Text) → exists name ≡ true → contains taken name ≡ true)
    → (name : Text) × (unique_dir_name (suc (length taken)) base exists ≡ some name)
      × IsFirstFree base exists name
unique_dir_name-IsFirstFree base exists taken finite =
    unique_dir_name-candidates base exists taken (λ i _. finite (candidate base i))

-- In both cases the name is free.
pub IsFirstFree-free :
    (base : Text) (exists : Text → Bool) (name : Text)
    → IsFirstFree base exists name
    → exists name ≡ false
IsFirstFree-free base exists name (inl (p, free)) = rw p free
IsFirstFree-free base exists name (inr (_, first)) = first.is_free

some-injective : (s t : Text) → some s ≡ some t → s ≡ t
some-injective s t p = cc

unique_loop-free :
    (fuel : ℕ) (base : Text) (exists : Text → Bool) (i : ℕ) (name : Text)
    → unique_loop fuel base exists i ≡ some name
    → exists name ≡ false
unfolding unique_loop
unique_loop-free zero base exists i name h = absurd (ground arith)
unique_loop-free (suc fuel) base exists i name h = elim (Bool-cases (exists (candidate base i))) [
  | inl busy ↦ unique_loop-free fuel base exists (i + 1) name (rw busy at h)
  | inr free ↦ rw (← some-injective (candidate base i) name (rw free at h)) free
]

-- Whatever the fuel, a name that is returned is free.
pub unique_dir_name-free :
    (fuel : ℕ) (base : Text) (exists : Text → Bool) (name : Text)
    → unique_dir_name fuel base exists ≡ some name
    → exists name ≡ false
unfolding unique_dir_name
unique_dir_name-free fuel base exists name h = elim (Bool-cases (exists base)) [
  | inl busy ↦ unique_loop-free fuel base exists 2 name (rw busy at h)
  | inr free ↦ rw (← some-injective base name (rw free at h)) free
]

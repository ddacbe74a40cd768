-- ===== src/Document/UniqueName.antt =====
-- internal/document/document.go: `UniqueDirName`. Its loop has no bound in Go; here it takes fuel,
-- and UniqueName/Fresh.antt shows how much is enough.
pub mod Decimal
pub mod Fresh
use paper_claw.Base.{ℕ, zero, suc, ◌+◌, Text, codes, Bool, Option, none, some, ◌++◌, if◌then◌else◌}
use paper_claw.Document.UniqueName.Decimal.{itoa}

-- `fmt.Sprintf("%s-%d", base, i)`
unfoldable pub candidate : Text → ℕ → Text
candidate base i = base ++ (codes "-" ++ itoa i)

-- The loop from `i` on; `none` means that the fuel ran out.
unfoldable pub unique_loop : ℕ → Text → (Text → Bool) → ℕ → Option Text
unique_loop zero base exists i = none
unique_loop (suc fuel) base exists i =
    let rest = unique_loop fuel base exists (i + 1) in
    if exists (candidate base i) then rest else some (candidate base i)

unfoldable pub unique_dir_name : ℕ → Text → (Text → Bool) → Option Text
unique_dir_name fuel base exists = if exists base then unique_loop fuel base exists 2 else some base

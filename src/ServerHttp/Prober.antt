-- ===== src/ServerHttp/Prober.antt =====
-- internal/serverhttp/prober.go: the cached probe of the Anthropic API. Its loop is the list of the
-- probes that it has made: the error of each, if any, and the time.
use paper_claw.Base.{ℕ, Error, is_nil, Bool, false, Option, none, List, [], ◌∷◌, ◌++◌, ◌≡◌, refl}

pub record ProbeResult : Type 0 where
  pub healthy : Bool
  pub at : ℕ
  pub cause : Option Error

-- What `NewProber` begins with.
abbrev pub unprobed : ProbeResult
unprobed = record { healthy = false; at = 0; cause = none }

unfoldable pub probe : Option Error → ℕ → ProbeResult → ProbeResult
probe cause now r = record { healthy = is_nil cause; at = now; cause = cause }

unfoldable pub probes : List (Option Error × ℕ) → ProbeResult → ProbeResult
unfolding probe
probes [] r = r
probes ((cause, now) ∷ more) r = probes more (probe cause now r)

-- `AnthropicHealthy`
abbrev pub anthropic_healthy : ProbeResult → Bool
anthropic_healthy r = r.healthy

-- Only the last probe counts.
probes-append :
    (earlier : List (Option Error × ℕ)) (cause : Option Error) (now : ℕ) (r : ProbeResult)
    → probes (earlier ++ (cause, now) ∷ []) r
      ≡ record { healthy = is_nil cause; at = now; cause = cause }
unfolding probes
probes-append [] cause now r = refl
probes-append ((e, t) ∷ earlier) cause now r = probes-append earlier cause now (probe e t r)

-- ===== src/System/Shutdown.antt =====
-- internal/serve/worker.go, cmd/paperclaw/serve.go: what the worker does once the context of the daemon is
-- done. `Run` may find a request and the end of the context ready at once; a pick says which it takes.
use paper_claw.Base.{
  ℕ, ◌+◌, ◌*◌, ◌<◌, Text, Result, ok, err, Bool, true, false, ◌&&◌, List, [], ◌∷◌, length, ltb,
  if◌then◌else◌, ◌≡◌, refl, arith, Bool-cases, inl, inr, ◌⊎◌,
}
use paper_claw.System.{Parts}
use paper_claw.System.Worker.{
  System, Shared, Phase, idle, scanning, names_listed, begin_scan, end_scan, interfere, shared_call,
}

module _ (P : Parts) where
  -- One round, and whether `Run` returns in it. No other goroutine acts any more.
  unfoldable pub stop_round : Bool → Phase P → System P → System P × Bool
  stop_round pick idle s =
      if pick && ltb 0 s.daemon.queued then (begin_scan P [] s, false) else (s, true)
  stop_round pick (scanning []) s = (end_scan P s, false)
  stop_round pick (scanning (name ∷ names)) s = (record s { phase = idle }, false)

  -- The rounds of the worker, by the picks of each.
  unfoldable pub drain : List Bool → System P → System P × Bool
  unfolding stop_round
  drain [] s = (s, false)
  drain (pick ∷ picks) s =
      let (s', returned) = stop_round pick s.phase s in
      let rest = drain picks s' in if returned then (s', true) else rest

  -- What is left for the worker to do: two rounds for each request that waits, and one for a scan.
  abbrev pub left_of : ℕ → Phase P → ℕ
  left_of queued idle = 2 * queued
  left_of queued (scanning names) = 2 * queued + 1

  names_listed-left :
      (r : Result (List Text) × Shared P) (s : System P)
      → left_of (names_listed P r s).daemon.queued (names_listed P r s).phase
        < 2 * r.1.daemon.queued + 2
  unfolding names_listed
  names_listed-left (err e, sh) s = omega arith
  names_listed-left (ok names, sh) s = omega arith

  begin_scan-left :
      (s : System P)
      → 0 < s.daemon.queued
      → left_of (begin_scan P [] s).daemon.queued (begin_scan P [] s).phase < 2 * s.daemon.queued
  unfolding begin_scan shared_call interfere
  begin_scan-left s h = omega (arith, names_listed-left _ s)

  -- What is left grows less in a round in which `Run` does not return.
  stop_round-left :
      (pick : Bool) (phase : Phase P) (s : System P)
      → s.phase ≡ phase
      → ((stop_round pick phase s).1 ≡ true)
        ⊎ (left_of (stop_round pick phase s).0.daemon.queued (stop_round pick phase s).0.phase
            < left_of s.daemon.queued phase)
  unfolding stop_round
  stop_round-left pick idle s h = elim (Bool-cases (pick && ltb 0 s.daemon.queued)) [
    | inl more ↦ rw more (inr (begin_scan-left s (ground (arith, more))))
    | inr none_left ↦ rw none_left (inl refl)
  ]
  stop_round-left pick (scanning []) s h = unfold end_scan in inr (omega arith)
  stop_round-left pick (scanning (name ∷ names)) s h = inr (omega arith)

  -- Once the context is done and no other goroutine acts, `Run` returns within two rounds for each
  -- request that waits, one for a scan that has begun, and one more, whichever case its select takes.
  pub drain-returned :
      (picks : List Bool) (s : System P)
      → left_of s.daemon.queued s.phase < length picks
      → (drain picks s).1 ≡ true
  unfolding drain
  drain-returned [] s h = absurd (omega arith)
  drain-returned (pick ∷ picks) s h = elim (Bool-cases (stop_round pick s.phase s).1) [
    | inl returned ↦ rw returned refl
    | inr on ↦ elim (stop_round-left pick s.phase s refl) [
      | inl returned ↦ absurd (cc (on, returned))
      | inr less ↦ rw on (drain-returned picks (stop_round pick s.phase s).0 (omega arith))
    ]
  ]

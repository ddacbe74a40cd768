-- ===== src/Serve/Worker/Queue.antt =====
-- internal/serve/worker.go: the channel of scan requests, which `Enqueue` writes to from any thread
-- and the loop of `Run` reads from. A run of the threads is a sequence of such events.
use paper_claw.Base.{ℕ, suc, ◌+◌, ◌≤◌, List, [], ◌∷◌, ◌++◌, ltb, if◌then◌else◌, ◌≡◌, arith}

abbrev pub scan_chan_cap : ℕ
scan_chan_cap = 1

-- A send that does not block: dropped when the buffer is full.
unfoldable pub enqueue : ℕ → ℕ
enqueue queued = if ltb queued scan_chan_cap then queued + 1 else queued

pub data Signal : Type 0 where
  requested begun : Signal

-- The buffer before, the events and the buffer behind. The loop begins a scan by taking a request,
-- and waits while there is none.
pub data Steps : ℕ → List Signal → ℕ → Type 0 where
  idle : (queued : ℕ) → Steps queued [] queued
  request :
      {queued last : ℕ} {signals : List Signal}
      → Steps (enqueue queued) signals last
      → Steps queued (requested ∷ signals) last
  begin :
      {queued last : ℕ} {signals : List Signal}
      → Steps queued signals last
      → Steps (suc queued) (begun ∷ signals) last

abbrev pub scans : List Signal → ℕ
scans [] = 0
scans (requested ∷ signals) = scans signals
scans (begun ∷ signals) = suc (scans signals)

abbrev pub requests : List Signal → ℕ
requests [] = 0
requests (requested ∷ signals) = suc (requests signals)
requests (begun ∷ signals) = requests signals

-- The buffer never holds more than its capacity, and no scan begins without a request.
pub Steps-bounds :
    {queued last : ℕ} {signals : List Signal}
    → queued ≤ scan_chan_cap
    → Steps queued signals last
    → (last ≤ scan_chan_cap) × (scans signals + last ≤ requests signals + queued)
unfolding enqueue
Steps-bounds h (idle queued) = omega arith
Steps-bounds {queued} h (request s) =
    let (p, q) = Steps-bounds (ground arith) s in ground (arith, p, q)
Steps-bounds h (begin s) = omega (arith, Steps-bounds (omega arith) s)

-- A request that is queued is gone only if a scan has begun.
Steps-begun :
    {queued last : ℕ} {signals : List Signal}
    → Steps queued signals last
    → 1 ≤ queued
    → last ≡ 0
    → 1 ≤ scans signals
unfolding enqueue
Steps-begun (idle queued) h e = omega arith
Steps-begun {queued} (request s) h e = Steps-begun s (ground arith) e
Steps-begun (begin s) h e = omega arith

-- No request is lost: if the buffer is empty at the end, a scan has begun after each request, the
-- dropped ones too.
pub Steps-no_lost_request :
    (before after : List Signal) {queued last : ℕ}
    → Steps queued (before ++ requested ∷ after) last
    → last ≡ 0
    → 1 ≤ scans after
unfolding enqueue
Steps-no_lost_request [] after {queued} (request s) e = Steps-begun s (ground arith) e
Steps-no_lost_request (requested ∷ before) after (request s) e =
    Steps-no_lost_request before after s e
Steps-no_lost_request (begun ∷ before) after (begin s) e = Steps-no_lost_request before after s e

-- ===== src/Telemetry/Setup.antt =====
-- internal/telemetry/telemetry.go: `Setup`. The OpenTelemetry library is a parameter: which of its four
-- constructors fail. Its state is what `Setup` changes: the providers that run, and where `slog` goes.
use paper_claw.Base.{
  Text, Error, Result, ok, err, Bool, true, false, not, ◌&&◌, is_nil, Bool-cases, inl, inr, Option,
  none, some, List, [], ◌∷◌, is_empty, if◌then◌else◌, ◌≡◌, refl, arith,
}

pub data Provider : Type 0 where
  tracer meter logger : Provider

abbrev pub is_same : Provider → Provider → Bool
is_same tracer tracer = true
is_same tracer meter = false
is_same tracer logger = false
is_same meter tracer = false
is_same meter meter = true
is_same meter logger = false
is_same logger tracer = false
is_same logger meter = false
is_same logger logger = true

pub record Telemetry : Type 0 where
  pub running : List Provider
  pub bridged : Bool

-- The errors of `resource.New` and of the three exporters.
pub record Exporters : Type 0 where
  pub resource : Option Error
  pub traces : Option Error
  pub metrics : Option Error
  pub logs : Option Error

-- A new provider, with its exporter.
abbrev pub start_provider : Provider → Telemetry → Telemetry
start_provider p t = record t { running = p ∷ t.running }

stopped : Provider → List Provider → List Provider
stopped p [] = []
stopped p (q ∷ qs) = let rest = stopped p qs in if is_same p q then rest else q ∷ rest

-- `p.Shutdown`
unfoldable pub shut_down : Provider → Telemetry → Telemetry
unfolding stopped
shut_down p t = record t { running = stopped p t.running }

-- The function that `Setup` returns.
abbrev pub Shutdown : Type 0
Shutdown = Telemetry → Telemetry

abbrev pub shut_down_all : Shutdown
shut_down_all t = shut_down logger (shut_down meter (shut_down tracer t))

with_logs : Option Error → Telemetry → Result Shutdown × Telemetry
with_logs (some e) t = (err e, shut_down meter (shut_down tracer t))
with_logs none t = (ok shut_down_all, record (start_provider logger t) { bridged = true })

with_metrics : Exporters → Option Error → Telemetry → Result Shutdown × Telemetry
unfolding with_logs
with_metrics x (some e) t = (err e, shut_down tracer t)
with_metrics x none t = with_logs x.logs (start_provider meter t)

with_traces : Exporters → Option Error → Telemetry → Result Shutdown × Telemetry
unfolding with_metrics
with_traces x (some e) t = (err e, t)
with_traces x none t = with_metrics x x.metrics (start_provider tracer t)

with_resource : Exporters → Option Error → Telemetry → Result Shutdown × Telemetry
unfolding with_traces
with_resource x (some e) t = (err e, t)
with_resource x none t = with_traces x x.traces t

-- `Setup`, by the value of OTEL_EXPORTER_OTLP_ENDPOINT.
unfoldable pub setup : Text → Exporters → Telemetry → Result Shutdown × Telemetry
unfolding with_resource
setup endpoint x t = if is_empty endpoint then (ok (λ s. s), t) else with_resource x x.resource t

-- Before the setup.
abbrev pub untouched : Telemetry
untouched = record { running = []; bridged = false }

-- What a setup may leave: after an error everything is as before it; without one, all that it started is
-- ended by the shutdown that it returned, and the log goes to the exporters exactly if an endpoint is set.
pub data Balanced (endpoint : Text) : Result Shutdown × Telemetry → Type 0 where
  undone : (e : Error) → Balanced endpoint (err e, untouched)
  done :
      (shutdown : Shutdown) (t : Telemetry)
      → (shutdown t).running ≡ []
      → t.bridged ≡ not (is_empty endpoint)
      → Balanced endpoint (ok shutdown, t)

with_logs-Balanced :
    (endpoint : Text) (e : Option Error)
    → is_empty endpoint ≡ false
    → Balanced endpoint (with_logs e (start_provider meter (start_provider tracer untouched)))
unfolding with_logs shut_down
with_logs-Balanced endpoint (some e) set = undone e
with_logs-Balanced endpoint none set = done shut_down_all _ refl (ground (arith, set))

with_metrics-Balanced :
    (endpoint : Text) (x : Exporters) (e : Option Error)
    → is_empty endpoint ≡ false
    → Balanced endpoint (with_metrics x e (start_provider tracer untouched))
unfolding with_metrics shut_down
with_metrics-Balanced endpoint x (some e) set = undone e
with_metrics-Balanced endpoint x none set = with_logs-Balanced endpoint x.logs set

with_traces-Balanced :
    (endpoint : Text) (x : Exporters) (e : Option Error)
    → is_empty endpoint ≡ false
    → Balanced endpoint (with_traces x e untouched)
unfolding with_traces
with_traces-Balanced endpoint x (some e) set = undone e
with_traces-Balanced endpoint x none set = with_metrics-Balanced endpoint x x.metrics set

with_resource-Balanced :
    (endpoint : Text) (x : Exporters) (e : Option Error)
    → is_empty endpoint ≡ false
    → Balanced endpoint (with_resource x e untouched)
unfolding with_resource
with_resource-Balanced endpoint x (some e) set = undone e
with_resource-Balanced endpoint x none set = with_traces-Balanced endpoint x x.traces set

-- Wherever the setup of the exporters fails, no provider is left running; and the shutdown that a
-- successful one returns ends all that it started.
pub setup-Balanced :
    (endpoint : Text) (x : Exporters) → Balanced endpoint (setup endpoint x untouched)
unfolding setup
setup-Balanced endpoint x = elim (Bool-cases (is_empty endpoint)) [
  | inl unset ↦ rw unset (done (λ s. s) untouched refl (ground (arith, unset)))
  | inr set ↦ rw set (with_resource-Balanced endpoint x x.resource set)
]

-- With all three providers.
abbrev pub exporting : Telemetry
exporting = record { running = logger ∷ meter ∷ tracer ∷ []; bridged = true }

-- No constructor fails.
abbrev pub all_work : Exporters → Bool
all_work x = is_nil x.resource && is_nil x.traces && is_nil x.metrics && is_nil x.logs

with_resource-telemetry :
    (resource traces metrics logs : Option Error)
    → (let x : Exporters = record {
      resource = resource;
      traces = traces;
      metrics = metrics;
      logs = logs;
    } in
        (with_resource x resource untouched).1 ≡ (if all_work x then exporting else untouched))
unfolding with_resource with_traces with_metrics with_logs shut_down stopped
with_resource-telemetry (some e) traces metrics logs = refl
with_resource-telemetry none (some e) metrics logs = refl
with_resource-telemetry none none (some e) logs = refl
with_resource-telemetry none none none (some e) = refl
with_resource-telemetry none none none none = refl

-- The exporters run behind a setup exactly if an endpoint is set and no constructor failed.
pub setup-telemetry :
    (endpoint : Text) (x : Exporters)
    → (setup endpoint x untouched).1
      ≡ (if not (is_empty endpoint) && all_work x then exporting else untouched)
unfolding setup
setup-telemetry endpoint x = elim (Bool-cases (is_empty endpoint)) [
  | inl unset ↦ rw unset refl
  | inr set ↦ rw set (with_resource-telemetry x.resource x.traces x.metrics x.logs)
]

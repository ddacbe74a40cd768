-- ===== src/Daemon/Start/Exporting.antt =====
-- cmd/paperclaw/serve.go, internal/telemetry/telemetry.go: which exporters run when the start returns.
use paper_claw.Base.{
  Text, codes, Result, ok, err, Bool, true, false, not, ◌&&◌, is_empty, if◌then◌else◌, ◌≡◌, refl,
  ◌∙◌,
}
use paper_claw.Config.{Config, Secrets, load}
use paper_claw.Oauth.{Oauth2}
use paper_claw.DriveStorage.{Service}
use paper_claw.Telemetry.Setup.{
  Telemetry, Shutdown, untouched, exporting, all_work, setup, setup-telemetry,
}
use paper_claw.Daemon.Start.{Boot, exporters_set, loaded, start}

abbrev pub is_loaded : Result (Config × Secrets) → Bool
is_loaded (ok c) = true
is_loaded (err e) = false

module _ (o : Oauth2) (G : Service) (client_of : o.Token → G.Http) {Instrument : Type 0}
    (boot : Boot Instrument) (remote : G.Remote) where
  exporters_set-telemetry :
      (cfg : Config) (secrets : Secrets) (r : Result Shutdown × Telemetry)
      → (exporters_set o G client_of boot remote cfg secrets r).1 ≡ r.1
  unfolding exporters_set
  exporters_set-telemetry cfg secrets (err e, t) = refl
  exporters_set-telemetry cfg secrets (ok shutdown, t) = refl

  abbrev endpoint : Text
  endpoint = boot.getenv (codes "OTEL_EXPORTER_OTLP_ENDPOINT")

  loaded-telemetry :
      (r : Result (Config × Secrets))
      → (loaded o G client_of boot remote r).1 ≡ (
          if is_loaded r && (not (is_empty endpoint) && all_work boot.exporters)
          then exporting
          else untouched)
  unfolding loaded
  loaded-telemetry (err e) = refl
  loaded-telemetry (ok (cfg, secrets)) =
      exporters_set-telemetry cfg secrets (setup endpoint boot.exporters untouched)
      ∙ setup-telemetry endpoint boot.exporters

  -- When the start returns, with an error or not, all exporters run if the configuration was loaded, an
  -- endpoint is set and no constructor failed, and else none: no later error ends them.
  pub start-telemetry : (start o G client_of boot remote).1 ≡ (
      if is_loaded (load boot.unmarshal boot.getenv boot.file)
        && (not (is_empty endpoint) && all_work boot.exporters)
      then exporting
      else untouched)
  unfolding start
  start-telemetry = loaded-telemetry (load boot.unmarshal boot.getenv boot.file)

-- ===== src/ServerHttp/Routes.antt =====
-- internal/serverhttp/server.go: the routes of `New` and `RegisterWebhook`, and which of them Go's
-- `http.ServeMux` gives a request to. A path is already clean: a request for another one is redirected.
use paper_claw.Base.{Text, codes, Bool, ◌&&◌, ◌||◌, List, [], ◌∷◌, ◌++◌, text_eq, if◌then◌else◌}

pub data Endpoint : Type 0 where
  healthz readyz oauth_start oauth_callback webhook_drive : Endpoint

-- `GET /healthz`, and its handler.
pub record Route : Type 0 where
  pub method : Text
  pub path : Text
  pub endpoint : Endpoint

abbrev pub get : Text → Endpoint → Route
get path endpoint = record { method = codes "GET"; path = path; endpoint = endpoint }

-- The routes of `New`.
abbrev pub new_routes : List Route
new_routes =
    get (codes "/healthz") healthz
    ∷ get (codes "/readyz") readyz
    ∷ get (codes "/oauth/start") oauth_start
    ∷ get (codes "/oauth/callback") oauth_callback
    ∷ []

abbrev pub register_webhook : List Route → List Route
register_webhook routes =
    routes
    ++ record { method = codes "POST"; path = codes "/webhook/drive"; endpoint = webhook_drive }
      ∷ []

-- A pattern with the method GET takes HEAD requests too.
unfoldable pub takes : Text → Text → Bool
takes pattern method =
    text_eq method pattern || (text_eq pattern (codes "GET") && text_eq method (codes "HEAD"))

pub data Routed : Type 0 where
  routed : Endpoint → Routed
  method_not_allowed not_found : Routed

-- A path that is there with other methods only is answered with 405.
unfoldable pub find_route : Text → Text → List Route → Routed
unfolding takes
find_route method path [] = not_found
find_route method path (r ∷ rs) =
    let rest = find_route method path rs in
    if text_eq r.path path
    then (if takes r.method method then routed r.endpoint else (elim rest [
      | routed e ↦ routed e
      | method_not_allowed ↦ method_not_allowed
      | not_found ↦ method_not_allowed
    ]))
    else rest

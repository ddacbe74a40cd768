-- ===== src/Oauth/States.antt =====
-- A state of the flow authorises one callback.
use paper_claw.Base.{
  ℕ, ◌+◌, ◌≤◌, Text, Error, Result, ok, err, Bool, false, not, ◌==◌, ap, ◌&&◌, Option, none, some,
  List, [], ◌∷◌, text_eq, text_eq_iff, contains, without, contains-without, if◌then◌else◌, ◌≡◌,
  refl, inl, inr, Bool-cases, arith,
}
use paper_claw.Store.Sql.{Db}
use paper_claw.Oauth.{
  Oauth2, Flow, started, handle_start, client_set, token_put, marshalled, exchanged,
  handle_callback,
}
use paper_claw.Store.Token.{put_token}

-- The requests of the flow: a start, with what the random source gave it, and a callback.
pub data Request : Type 0 where
  start : Result Text → Request
  callback : Text → Text → Request

module _ (o : Oauth2) {Drive : Type 0} (set_client : o.Token → Drive → Option Error × Drive)
    (has_ready : Bool) where
  client_set-states :
      (r : Option Error × Drive) (f : Flow Drive)
      → (client_set o set_client has_ready r f).1.states ≡ f.states
  unfolding client_set
  client_set-states (none, drive) f = refl
  client_set-states (some e, drive) f = refl

  token_put-states :
      (tok : o.Token) (r : Result (Unit {0}) × Db) (f : Flow Drive)
      → (token_put o set_client has_ready tok r f).1.states ≡ f.states
  unfolding token_put
  token_put-states tok (err e, db) f = refl
  token_put-states tok (ok u, db) f =
      client_set-states (set_client tok f.drive) (record f { db = db })

  marshalled-states :
      (tok : o.Token) (r : Result Text) (f : Flow Drive)
      → (marshalled o set_client has_ready tok r f).1.states ≡ f.states
  unfolding marshalled
  marshalled-states tok (err e) f = refl
  marshalled-states tok (ok raw) f = token_put-states tok (put_token raw f.db) f

  exchanged-states :
      (r : Result o.Token) (f : Flow Drive)
      → (exchanged o set_client has_ready r f).1.states ≡ f.states
  unfolding exchanged
  exchanged-states (err e) f = refl
  exchanged-states (ok tok) f = marshalled-states tok (o.marshal tok) f

  -- Whatever the answer, the state of a callback is used up and the others stay.
  contains-handle_callback :
      (state code other : Text) (f : Flow Drive)
      → contains (handle_callback o set_client has_ready state code f).1.states other
        ≡ (if text_eq state other then false else contains f.states other)
  unfolding handle_callback
  contains-handle_callback state code other f =
      let f' = record f { states = without state f.states } in
      elim (Bool-cases (contains f.states state)) [
        | inl known ↦
            rw (known, exchanged-states (o.exchange code) f')
              (contains-without state other f.states)
        | inr unknown ↦ rw unknown (contains-without state other f.states)
      ]

  -- A callback with a state that is not pending is answered with 400: no token is stored, the Drive
  -- client is left as it is, and nobody is told.
  handle_callback_unknown :
      (state code : Text) (f : Flow Drive)
      → contains f.states state ≡ false
      → handle_callback o set_client has_ready state code f
        ≡ (400, record f { states = without state f.states })
  unfolding handle_callback
  handle_callback_unknown state code f unknown = rw unknown

  abbrev pub serve : Request → Flow Drive → Flow Drive
  serve (start random) f = (handle_start random f).1
  serve (callback state code) f = (handle_callback o set_client has_ready state code f).1

  -- Whether a request draws a state, and whether it is a callback with the state that is answered with
  -- anything but 400: with 200, or with 500 behind an exchange of its code that succeeded.
  abbrev pub issues : Text → Request → ℕ
  issues state (start (ok drawn)) = if text_eq drawn state then 1 else 0
  issues state _ = 0

  abbrev pub passes : Text → Request → Flow Drive → ℕ
  passes state (start random) f = 0
  passes state (callback given code) f =
      if text_eq given state && not ((handle_callback o set_client has_ready given code f).0 == 400)
      then 1
      else 0

  passes-pending :
      (state given code : Text) (f : Flow Drive)
      → passes state (callback given code) f
        ≤ (if text_eq given state && contains f.states given then 1 else 0)
  passes-pending state given code f = elim (Bool-cases (contains f.states given)) [
    | inl known ↦ ground (arith, known)
    | inr unknown ↦
        ground (arith, unknown, ap (λ r. r.0) (handle_callback_unknown given code f unknown))
  ]

  pub issued : Text → List Request → ℕ
  issued state [] = 0
  issued state (r ∷ rs) = issues state r + issued state rs

  pub passed : Text → List Request → Flow Drive → ℕ
  passed state [] f = 0
  passed state (r ∷ rs) f = passes state r f + passed state rs (serve r f)

  abbrev pub pending : Text → Flow Drive → ℕ
  pending state f = if contains f.states state then 1 else 0

  contains-handle_start :
      (random : Result Text) (state : Text) (f : Flow Drive)
      → pending state (handle_start random f).1 ≤ issues state (start random) + pending state f
  unfolding handle_start started contains
  contains-handle_start (err e) state f = ground arith
  contains-handle_start (ok drawn) state f =
      ground (arith, contains-without drawn state f.states, text_eq_iff drawn state)

  -- In any sequence of requests no more callbacks with a state are answered with anything but 400 than
  -- the state was drawn, counting one more if it was pending before.
  pub passed-le-issued :
      (state : Text) (rs : List Request) (f : Flow Drive)
      → passed state rs f ≤ issued state rs + pending state f
  unfolding passed issued
  passed-le-issued state [] f = omega arith
  passed-le-issued state (start random ∷ rs) f = omega (
    arith,
    passed-le-issued state rs (serve (start random) f),
    contains-handle_start random state f,
  )
  passed-le-issued state (callback given code ∷ rs) f = ground (
    arith,
    passed-le-issued state rs (serve (callback given code) f),
    contains-handle_callback given code state f,
    passes-pending state given code f,
    text_eq_iff given state,
  )

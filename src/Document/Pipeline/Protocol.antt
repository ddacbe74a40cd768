-- ===== src/Document/Pipeline/Protocol.antt =====
-- The storage calls that `ProcessOne` makes and what it tells the observer, for each way to end.
use paper_claw.Base.{
  Text, List, [], ◌∷◌, ◌++◌, append_assoc, append-nil, if◌then◌else◌, Bool-cases, inl, inr, ◌≡◌,
  refl, arith,
}
use paper_claw.Document.Storage.{Entry, ProcessingError, Storage}
use paper_claw.Document.Pipeline.{Event, Env, World, notify}

-- `close` is the cleanup that `ReadPDF` returned.
pub data Call (State : Type 0) : Type 0 where
  read_pdf : Text → Call State
  is_duplicate : Text → Call State
  write_entry : Entry → Call State
  move_to_processed : Text → Text → Call State
  quarantine : Text → ProcessingError → Call State
  close : (State → State) → Call State

module _ (S : Storage) where
  abbrev pub effect : Call S.State → S.State → S.State
  effect (read_pdf name) s = (S.read_pdf name s).1
  effect (is_duplicate hash) s = (S.is_duplicate hash s).1
  effect (write_entry entry) s = (S.write_entry entry s).1
  effect (move_to_processed name hash) s = (S.move_to_processed name hash s).1
  effect (quarantine name pe) s = (S.quarantine name pe s).1
  effect (close cleanup) s = cleanup s

  abbrev pub effects : List (Call S.State) → S.State → S.State
  effects [] s = s
  effects (c ∷ cs) s = effects cs (effect c s)

  pub effects-append :
      (cs ds : List (Call S.State)) (s : S.State) → effects (cs ++ ds) s ≡ effects ds (effects cs s)
  effects-append [] ds s = refl
  effects-append (c ∷ cs) ds s = effects-append cs ds (effect c s)

  -- From the world `w` exactly the calls were made and, if there is an observer, exactly the events
  -- were told to it.
  pub record Did (env : Env S.State) (w w' : World S.State) (calls : List (Call S.State))
      (told : List Event) : Type 0 where
    pub state : w'.store ≡ effects calls w.store
    pub heard : w'.events ≡ (if env.observed then w.events ++ told else w.events)

  module _ (env : Env S.State) where
    pub Did-start : (w : World S.State) → Did env w w [] []
    Did-start w = record { state = refl; heard = ground (arith, append-nil w.events) }

    pub Did-notify :
        {w w' : World S.State} {calls : List (Call S.State)} {told : List Event} (e : Event)
        → Did env w w' calls told
        → Did env w (notify S env e w') calls (told ++ e ∷ [])
    Did-notify {w} {w'} {calls} {told} e did = elim (Bool-cases env.observed) [
      | inl on ↦ record {
        state = ground (arith, did.state);
        heard = ground (arith, did.heard, append_assoc w.events told (e ∷ []));
      }
      | inr off ↦ record { state = ground (arith, did.state); heard = ground (arith, did.heard) }
    ]

    -- One more call, which leaves the events alone.
    pub Did-call :
        {w w' : World S.State} {calls : List (Call S.State)} {told : List Event} (c : Call S.State)
        {s : S.State}
        → s ≡ effect c w'.store
        → Did env w w' calls told
        → Did env w (record { store = s; events = w'.events }) (calls ++ c ∷ []) told
    Did-call {w} {calls} c p did = record {
      state = rw (effects-append calls (c ∷ []) w.store, p, did.state);
      heard = did.heard;
    }

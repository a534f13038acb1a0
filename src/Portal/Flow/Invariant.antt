-- ===== src/Portal/Flow/Invariant.antt =====
-- What holds of a session between two events of the main loop.
use py_wayland_auto.Base.{
  ◌≡◌, refl, Bool, true, List, [], ◌∷◌, Option, none, some, is_some, arith, String,
}
use py_wayland_auto.Outcome.{BackendError, Result, ok, raised, portal_failed}
use py_wayland_auto.Stateful.{Post, catch_with}
use py_wayland_auto.Portal.World.{
  State, init, starting, started, stopped, Transport, notify, eis, Handler, on_create_session,
  on_select_devices, on_start, Eis, Session, Call, add_response_listener, Env, World, M, invoke,
}
use py_wayland_auto.Portal.Start.{fail, begin}
use py_wayland_auto.Portal.Flow.{guarded, selected}
use py_wayland_auto.Portal.Select.{select, select_without_token, token_refused}

-- The receiver that was registered last.
unfoldable pub newest : List Call → Option Handler
newest [] = none
newest (add_response_listener t h ∷ log) = some h
newest (c ∷ log) = newest log

-- The session's path while the answer to a request is awaited.
abbrev pub Awaits : Option Handler → Option String → Type 0
Awaits none path = ⊥
Awaits (some on_create_session) path = path ≡ none
Awaits (some on_select_devices) path = is_some path ≡ true
Awaits (some on_start) path = is_some path ≡ true

-- The transport of a started session is chosen, and has its client.
abbrev pub Linked : Option Transport → Option Eis → Type 0
Linked none client = ⊥
Linked (some notify) client = Unit
Linked (some eis) client = is_some client ≡ true

abbrev pub InState : State → List Call → Session → Type 0
InState init log s = (s.session_path ≡ none) × (s.devices ≡ [])
InState stopped log s = (s.session_path ≡ none) × (s.devices ≡ [])
InState starting log s =
    Awaits (newest log) s.session_path × (s.devices ≡ []) × (s.last_error ≡ none)
InState started log s =
    (is_some s.session_path ≡ true) × Linked s.transport s.eis_client × (s.last_error ≡ none)

abbrev pub Inv : World → Type 0
Inv w = InState w.session.state w.log w.session

pub begin-Inv : (env : Env) (w : World) → Inv (begin env w).1
unfolding begin newest
begin-Inv env w = ground arith

pub fail-Inv : (e : BackendError) (w : World) → Inv (fail e w).1
fail-Inv e w = (refl, refl)

-- A handler under `except Exception` keeps the invariant, if its body does where it returns.
pub guarded-Inv :
    (env : Env) (m : M (Unit {0})) (w : World)
    → Post (m w) (λ _ w'. Inv w')
    → Inv (guarded env m w).1
guarded-Inv env m w h = go (m w) h
  where
    go :
        (r : Result (Unit {0}) × World)
        → Post r (λ _ w'. Inv w')
        → Inv (catch_with r (λ _. fail portal_failed)).1
    go (ok _, w') p = p
    go (raised e, w') p = (refl, refl)

pub any-Post : (r : Result (Unit {0}) × World) → Inv r.1 → Post r (λ _ w'. Inv w')
any-Post (ok _, w) h = h
any-Post (raised e, w) h = tt

-- A session that waits for the answer to a request of its own.
abbrev pub Waiting : Session → Type 0
Waiting s = (s.state ≡ starting) × (s.devices ≡ []) × (s.last_error ≡ none)

module _ (env : Env) (w : World) (waiting : Waiting w.session) where
  pub selected-Inv : is_some w.session.session_path ≡ true → Inv (selected env w).1
  unfolding selected newest
  selected-Inv p = ground arith

  pub select_without_token-Inv :
      is_some w.session.session_path ≡ true → Inv (select_without_token env w).1
  unfolding select_without_token newest
  select_without_token-Inv p = ground arith

module _ (env : Env) (w : World) (waiting : Waiting w.session) where
  token_refused-Inv :
      (name : String)
      → newest w.log ≡ some on_select_devices
      → is_some w.session.session_path ≡ true
      → Inv (token_refused env name w).1
  unfolding token_refused newest
  token_refused-Inv name n p = ground arith

  pub select-Inv :
      (use_token : Bool) → is_some w.session.session_path ≡ true → Inv (select env use_token w).1
  unfolding select newest
  select-Inv use_token p = ground arith

-- The world behind a successful call.
pub invoke-Post :
    (env : Env) (c : Call) (w : World)
    → Post (invoke env c w) (λ _ w'. w' ≡ record w { log = c ∷ w.log })
invoke-Post env c w = go (env.answer w.log c)
  where
    go :
        (r : Result (Unit {0}))
        → Post (r, record w { log = c ∷ w.log }) (λ _ w'. w' ≡ record w { log = c ∷ w.log })
    go (ok _) = refl
    go (raised e) = tt

-- ===== src/Portal/Flow/Steps.antt =====
-- The events of a session as a relation on its world, and the invariant along them.
use py_wayland_auto.Base.{
  ℕ, ◌≡◌, ◌≢◌, refl, Bool, true, false, [], Option, none, some, is_some, arith, String, ◌==◌,
  if◌then◌else◌,
}
use py_wayland_auto.Outcome.{permission_denied, portal_failed, ok}
use py_wayland_auto.Stateful.{Post}
use py_wayland_auto.Portal.World.{
  init, starting, started, stopped, Handler, on_create_session, on_select_devices, on_start, Env,
  World, M,
}
use py_wayland_auto.Portal.Start.{Results, new_session, fail, start, start_in, stop}
use py_wayland_auto.Portal.Flow.{respond, on_closed, created, selected}
use py_wayland_auto.Portal.Link.{granted}
use py_wayland_auto.Portal.Flow.Invariant.{
  newest, InState, Inv, Waiting, begin-Inv, guarded-Inv, any-Post, selected-Inv,
}
use py_wayland_auto.Portal.Flow.Handlers.{created-Post, granted-Post}

-- What the invariant says of a session that waits.
starting-Waiting : (w : World) → w.session.state ≡ starting → Inv w → Waiting w.session
starting-Waiting w st inv = ground arith

path_of :
    (w : World) (h : Handler)
    → w.session.state ≡ starting
    → Inv w
    → newest w.log ≡ some h
    → h ≢ on_create_session
    → is_some w.session.session_path ≡ true
path_of w h st inv n later = ground arith

either-Post :
    (b : Bool) (m k : M (Unit {0})) (w : World)
    → Post (m w) (λ _ w'. Inv w')
    → Post (k w) (λ _ w'. Inv w')
    → Post ((if b then m else k) w) (λ _ w'. Inv w')
either-Post true m k w p q = p
either-Post false m k w p q = q

pub respond-Inv :
    (env : Env) (h : Handler) (code : ℕ) (results : Results) (w : World)
    → newest w.log ≡ some h
    → w.session.state ≡ starting
    → Inv w
    → Inv (respond env h code results w).1
unfolding respond
respond-Inv env on_create_session code results w n st inv =
    guarded-Inv env (if code == 0 then created env results else fail portal_failed) w (
      either-Post (code == 0) _ _ w (created-Post env results w (starting-Waiting w st inv))
        (refl, refl))
respond-Inv env on_select_devices code results w n st inv =
    guarded-Inv env (if code == 0 then selected env else fail portal_failed) w (
      either-Post (code == 0) _ _ w
        (any-Post _ (
          selected-Inv env w (starting-Waiting w st inv)
            (path_of w on_select_devices st inv n (λ e. cc))))
        (refl, refl))
respond-Inv env on_start code results w n st inv =
    guarded-Inv env
      (if code == 0
        then granted env results
        else if code == 1
        then fail permission_denied
        else fail portal_failed)
      w
      (either-Post (code == 0) _ _ w
        (granted-Post env results w (starting-Waiting w st inv)
          (path_of w on_start st inv n (λ e. cc)))
        (either-Post (code == 1) _ _ w (refl, refl) (refl, refl)))

pub start-Inv : (env : Env) (w : World) → Inv w → Inv (start env w).1
unfolding start
start-Inv env w inv =
    elim w.session.state as (λ st. InState st w.log w.session → Inv (start_in env st w).1) [
      | init ↦ λ _. begin-Inv env w
      | starting ↦ λ _. inv
      | started ↦ λ _. inv
      | stopped ↦ λ _. begin-Inv env w
    ]
      inv

-- Where `stop` returns, it has reached its end.
stop-stopped :
    (env : Env) (w : World)
    → (stop env w).0 ≡ ok tt
    → let s = (stop env w).1.session in
      (s.state ≡ stopped) × (s.session_path ≡ none) × (s.devices ≡ []) × (s.eis_client ≡ none)
unfolding stop
stop-stopped env w returned = ground arith

on_closed-Inv : (w : World) → Inv w → Inv (on_closed w).1
unfolding on_closed
on_closed-Inv w inv = ground arith

-- What happens to a session: `start`, a `stop` that returns, the portal's Closed signal, and the
-- answer to the request made last, while the session is starting.
pub data Step (env : Env) (w : World) : World → Type 0 where
  starts : Step env w (start env w).1
  stops : (stop env w).0 ≡ ok tt → Step env w (stop env w).1
  closes : Step env w (on_closed w).1
  responds :
      (h : Handler) (code : ℕ) (results : Results)
      → newest w.log ≡ some h
      → w.session.state ≡ starting
      → Step env w (respond env h code results w).1

pub data Reach (env : Env) (w : World) : World → Type 0 where
  here : Reach env w w
  next : {u v : World} → Reach env w u → Step env u v → Reach env w v

Step-Inv : (env : Env) {u v : World} → Inv u → Step env u v → Inv v
Step-Inv env {u} inv starts = start-Inv env u inv
Step-Inv env {u} inv (stops returned) = stopped-Inv (stop env u).1 (stop-stopped env u returned)
  where
    stopped-Inv :
        (w : World)
        → (w.session.state ≡ stopped)
          × (w.session.session_path ≡ none)
          × (w.session.devices ≡ [])
          × (w.session.eis_client ≡ none)
        → Inv w
    stopped-Inv w h = ground arith
Step-Inv env {u} inv closes = on_closed-Inv u inv
Step-Inv env {u} inv (responds h code results n st) = respond-Inv env h code results u n st inv

Reach-Inv : (env : Env) {w v : World} → Inv w → Reach env w v → Inv v
Reach-Inv env inv here = inv
Reach-Inv env inv (next r s) = Step-Inv env (Reach-Inv env inv r) s

-- If the events of a new session are `start`, a `stop` that returns, the Closed signal and, only while
-- the session is starting, the answer to the request made last, with whatever results of the portal
-- and whatever exceptions of the calls: a session that is started has a path, a transport, no error,
-- and a client if its transport is EIS; one that is stopped or not yet started has neither path nor
-- devices; and one that is starting has the path that the awaited answer needs, no devices and no
-- error.
pub Reach-consistent :
    (env : Env) (transport_override : Option String) (w v : World)
    → w.session ≡ new_session transport_override w.files
    → Reach env w v
    → InState v.session.state v.log v.session
unfolding new_session
Reach-consistent env transport_override w v fresh r = Reach-Inv env (ground arith) r

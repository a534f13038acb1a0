-- ===== src/Portal/Flow/Late.antt =====
-- pywaylandauto/backends/portal.py: what holds of a session in whatever order its receivers are called.
-- The source never removes a receiver of a Response signal, and its receivers do not test the state.
use py_wayland_auto.Base.{
  ℕ, ◌≡◌, inl, inr, Bool, true, false, ◌∷◌, ◌==◌, if◌then◌else◌, Option, none, some, arith, String,
  Bool-cases,
}
use py_wayland_auto.Outcome.{BackendError, Result, ok, raised, portal_failed, permission_denied}
use py_wayland_auto.Stateful.{Post, bind-Post, catch_with, ◌>>=◌}
use py_wayland_auto.Portal.World.{
  State, init, starting, started, stopped, Handler, on_create_session, on_select_devices, on_start,
  Session, add_session_closed_listener, Env, World, M, invoke,
}
use py_wayland_auto.Portal.Start.{Results, device_list, new_session, fail, begin, start, stop}
use py_wayland_auto.Portal.Select.{select}
use py_wayland_auto.Portal.Link.{
  granted, connected, keep_token, wants_notify, mark_started, choose_transport, probe_notify,
  handshake,
}
use py_wayland_auto.Portal.Flow.{
  respond, on_closed, created, created_at, selected, guarded, handle_of,
}
use py_wayland_auto.Portal.Flow.Invariant.{Linked, invoke-Post}

-- The transport of a session that is started is chosen, and has its client.
abbrev pub LinkedIn : State → Session → Type 0
LinkedIn started s = Linked s.transport s.eis_client
LinkedIn _ s = Unit

abbrev pub IsLinked : World → Type 0
IsLinked w = LinkedIn w.session.state w.session

abbrev Keeps : M (Unit {0}) → Type 0
Keeps m = (w : World) → IsLinked w → IsLinked (m w).1

guarded-Keeps :
    (env : Env) (m : M (Unit {0})) (w : World)
    → Post (m w) (λ _ w'. IsLinked w')
    → IsLinked (guarded env m w).1
guarded-Keeps env m w h = go (m w) h
  where
    go :
        (r : Result (Unit {0}) × World)
        → Post r (λ _ w'. IsLinked w')
        → IsLinked (catch_with r (λ _. fail portal_failed)).1
    go (ok _, w') p = p
    go (raised e, w') p = tt

any-Post : (r : Result (Unit {0}) × World) → IsLinked r.1 → Post r (λ _ w'. IsLinked w')
any-Post (ok _, w) h = h
any-Post (raised e, w) h = tt

either-Keeps :
    (b : Bool) (e : BackendError) (m : M (Unit {0})) (w : World)
    → Post (m w) (λ _ w'. IsLinked w')
    → Post ((if b then m else fail e) w) (λ _ w'. IsLinked w')
either-Keeps true e m w h = h
either-Keeps false e m w h = tt

select-Keeps : (env : Env) (use_token : Bool) → Keeps (select env use_token)
unfolding select
select-Keeps env use_token w h = ground arith

selected-Keeps : (env : Env) → Keeps (selected env)
unfolding selected
selected-Keeps env w h = ground arith

start-Keeps : (env : Env) → Keeps (start env)
unfolding start begin
start-Keeps env w h = ground arith

stop-Keeps : (env : Env) (w : World) → (stop env w).0 ≡ ok tt → IsLinked (stop env w).1
unfolding stop
stop-Keeps env w h = ground arith

on_closed-Keeps : Keeps on_closed
unfolding on_closed
on_closed-Keeps w h = ground arith

probe_notify-Links : (env : Env) (w : World) → Post (probe_notify env w) (λ _ w'. IsLinked w')
unfolding probe_notify
probe_notify-Links env w = ground arith

handshake-Links : (env : Env) (w : World) → Post (handshake env w) (λ _ w'. IsLinked w')
unfolding handshake
handshake-Links env w = ground arith

pick-Links :
    (env : Env) (up : Bool) (w : World)
    → Post ((if up then handshake env else probe_notify env) w) (λ _ w'. IsLinked w')
pick-Links env true w = handshake-Links env w
pick-Links env false w = probe_notify-Links env w

any_world : {A : Type 0} (r : Result A × World) → Post r (λ _ _. Unit {0})
any_world (ok a, w) = tt
any_world (raised e, w) = tt

choose_transport-Links :
    (env : Env) (w : World) → Post (choose_transport env w) (λ _ w'. IsLinked w')
unfolding choose_transport
choose_transport-Links env w = elim (Bool-cases (wants_notify env w.session.transport_override)) [
  | inl yes_notify ↦ rw yes_notify (probe_notify-Links env w)
  | inr tries_eis ↦ rw tries_eis (
      bind-Post (connected env) _ w (λ _ _. Unit) _ (any_world (connected env w))
        (λ up w' _. pick-Links env up w'))
]

granted-Links :
    (env : Env) (results : Results) (w : World) → Post (granted env results w) (λ _ w'. IsLinked w')
unfolding granted
granted-Links env results w =
    bind-Post (keep_token env results.restore_token) _ w (λ _ _. Unit) _
      (any_world (keep_token env results.restore_token w))
      (λ _ w' _.
        choose_transport-Links env
          (record w' { session = mark_started env (device_list results.devices) w'.session }))

with_path-LinkedIn :
    (st : State) (s : Session) (path : String)
    → LinkedIn st s
    → LinkedIn st (record s { session_path = some path })
with_path-LinkedIn init s path h = tt
with_path-LinkedIn starting s path h = tt
with_path-LinkedIn started s path h = h
with_path-LinkedIn stopped s path h = tt

created_at-Links :
    (env : Env) (path : String) (w : World)
    → IsLinked w
    → Post (created_at env path w) (λ _ w'. IsLinked w')
unfolding created_at
created_at-Links env path w h =
    let w1 = record w { session = record w.session { session_path = some path } } in
    let c = add_session_closed_listener path in
    bind-Post (invoke env c) _ w1 (λ _ w'. w' ≡ record w1 { log = c ∷ w1.log }) _
      (invoke-Post env c w1)
      (λ _ w' e. rw e (
        any-Post _ (
          select-Keeps env w1.session.has_token (record w1 { log = c ∷ w1.log })
            (with_path-LinkedIn w.session.state w.session path h))))

created-Links :
    (env : Env) (results : Results) (w : World)
    → IsLinked w
    → Post (created env results w) (λ _ w'. IsLinked w')
unfolding created
created-Links env results w h = go results.session_handle
  where
    go :
        (handle : Option String)
        → Post ((handle_of env handle >>= created_at env) w) (λ _ w'. IsLinked w')
    go none = tt
    go (some path) = created_at-Links env path w h

respond-Keeps :
    (env : Env) (h : Handler) (code : ℕ) (results : Results) → Keeps (respond env h code results)
unfolding respond
respond-Keeps env on_create_session code results w h =
    guarded-Keeps env (if code == 0 then created env results else fail portal_failed) w (
      either-Keeps (code == 0) portal_failed (created env results) w
        (created-Links env results w h))
respond-Keeps env on_select_devices code results w h =
    guarded-Keeps env (if code == 0 then selected env else fail portal_failed) w (
      either-Keeps (code == 0) portal_failed (selected env) w
        (any-Post (selected env w) (selected-Keeps env w h)))
respond-Keeps env on_start code results w h =
    guarded-Keeps env
      (if code == 0
        then granted env results
        else if code == 1
        then fail permission_denied
        else fail portal_failed)
      w (answer_of (code == 0) (code == 1))
  where
    answer_of :
        (allowed denied : Bool)
        → Post
            ((if allowed
                then granted env results
                else if denied
                then fail permission_denied
                else fail portal_failed)
              w)
            (λ _ w'. IsLinked w')
    answer_of true denied = granted-Links env results w
    answer_of false true = tt
    answer_of false false = tt

-- What happens to a session, in any order: `start`, a `stop` that returns, the portal's Closed signal,
-- and an answer to any receiver, in any state.
pub data Happening (env : Env) (w : World) : World → Type 0 where
  starts : Happening env w (start env w).1
  stops : (stop env w).0 ≡ ok tt → Happening env w (stop env w).1
  closes : Happening env w (on_closed w).1
  answers :
      (h : Handler) (code : ℕ) (results : Results)
      → Happening env w (respond env h code results w).1

pub data Run (env : Env) (w : World) : World → Type 0 where
  here : Run env w w
  next : {u v : World} → Run env w u → Happening env u v → Run env w v

Happening-Keeps : (env : Env) {u v : World} → IsLinked u → Happening env u v → IsLinked v
Happening-Keeps env {u} h starts = start-Keeps env u h
Happening-Keeps env {u} h (stops returned) = stop-Keeps env u returned
Happening-Keeps env {u} h closes = on_closed-Keeps u h
Happening-Keeps env {u} h (answers r code results) = respond-Keeps env r code results u h

Run-Keeps : (env : Env) {w v : World} → IsLinked w → Run env w v → IsLinked v
Run-Keeps env h here = h
Run-Keeps env h (next run event) = Happening-Keeps env (Run-Keeps env h run) event

-- In whatever order a new session is started, stopped (by a `stop` that returns) and closed, and in
-- whatever order and state its receivers are called, also late and more than once, with whatever
-- results and exceptions of the portal and of the EIS server: where the session is started, its
-- transport is chosen and, if that is EIS, has its client.
pub Run-IsLinked :
    (env : Env) (transport_override : Option String) (w v : World)
    → w.session ≡ new_session transport_override w.files
    → Run env w v
    → LinkedIn v.session.state v.session
unfolding new_session
Run-IsLinked env transport_override w v fresh run = Run-Keeps env (ground arith) run

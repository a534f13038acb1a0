-- ===== src/Portal/Flow/Handlers.antt =====
-- The invariant through each handler, where its body returns.
use py_wayland_auto.Base.{
  ◌≡◌, refl, sym, subst, if◌then◌else◌, inl, inr, Bool, true, false, ◌∷◌, Option, none, some,
  is_some, arith, String, Text, Bool-cases,
}
use py_wayland_auto.Stateful.{Post, bind-Post}
use py_wayland_auto.Portal.World.{started, Session, add_session_closed_listener, Env, World, invoke}
use py_wayland_auto.Portal.Start.{Results, device_list}
use py_wayland_auto.Portal.Flow.{created, created_at, handle_of}
use py_wayland_auto.Portal.Link.{
  granted, connected, keep_token, wants_notify, mark_started, choose_transport, probe_notify,
  handshake,
}
use py_wayland_auto.Portal.Flow.Invariant.{Inv, Waiting, any-Post, invoke-Post, select-Inv}

handle_of-Post :
    (env : Env) (h : Option String) (w : World) → Post (handle_of env h w) (λ _ w'. w' ≡ w)
handle_of-Post env none w = tt
handle_of-Post env (some path) w = refl

created_at-Post :
    (env : Env) (path : String) (w : World)
    → Waiting w.session
    → Post (created_at env path w) (λ _ w'. Inv w')
unfolding created_at
created_at-Post env path w waiting =
    let w1 = record w { session = record w.session { session_path = some path } } in
    let c = add_session_closed_listener path in
    bind-Post (invoke env c) _ w1 (λ _ w'. w' ≡ record w1 { log = c ∷ w1.log }) _
      (invoke-Post env c w1)
      (λ _ w' e. rw e (
        any-Post _
          (select-Inv env (record w1 { log = c ∷ w1.log }) waiting w1.session.has_token refl)))

pub created-Post :
    (env : Env) (results : Results) (w : World)
    → Waiting w.session
    → Post (created env results w) (λ _ w'. Inv w')
unfolding created
created-Post env results w waiting =
    bind-Post (handle_of env results.session_handle) (created_at env) w (λ _ w'. w' ≡ w) _
      (handle_of-Post env results.session_handle w)
      (λ path w' e. rw e (created_at-Post env path w waiting))

-- A session whose devices are known and whose transport is not.
abbrev pub Granted : Session → Type 0
Granted s = (s.state ≡ started) × (s.last_error ≡ none) × (is_some s.session_path ≡ true)

probe_notify-Inv :
    (env : Env) (w : World) → Granted w.session → Post (probe_notify env w) (λ _ w'. Inv w')
unfolding probe_notify
probe_notify-Inv env w g = ground arith

handshake-Inv :
    (env : Env) (w : World) → Granted w.session → Post (handshake env w) (λ _ w'. Inv w')
unfolding handshake
handshake-Inv env w g = ground arith

connected-Post : (env : Env) (w : World) → Post (connected env w) (λ _ w'. w'.session ≡ w.session)
connected-Post env w = ground arith

pick-Post :
    (env : Env) (up : Bool) (w : World)
    → Granted w.session
    → Post ((if up then handshake env else probe_notify env) w) (λ _ w'. Inv w')
pick-Post env true w g = handshake-Inv env w g
pick-Post env false w g = probe_notify-Inv env w g

choose_transport-Post :
    (env : Env) (w : World) → Granted w.session → Post (choose_transport env w) (λ _ w'. Inv w')
unfolding choose_transport
choose_transport-Post env w g = elim (Bool-cases (wants_notify env w.session.transport_override)) [
  | inl yes_notify ↦ rw yes_notify (probe_notify-Inv env w g)
  | inr tries_eis ↦ rw tries_eis (
      bind-Post (connected env) _ w (λ _ w'. w'.session ≡ w.session) _ (connected-Post env w)
        (λ up w' e. pick-Post env up w' (subst Granted (sym e) g)))
]

keep_token-Post :
    (env : Env) (t : Option Text) (w : World)
    → Waiting w.session
    → is_some w.session.session_path ≡ true
    → Post
        (keep_token env t w)
        (λ _ w'. Waiting w'.session × (is_some w'.session.session_path ≡ true))
keep_token-Post env none w waiting p = (waiting, p)
keep_token-Post env (some t) w waiting p = ground arith

pub granted-Post :
    (env : Env) (results : Results) (w : World)
    → Waiting w.session
    → is_some w.session.session_path ≡ true
    → Post (granted env results w) (λ _ w'. Inv w')
unfolding granted
granted-Post env results w waiting p =
    bind-Post (keep_token env results.restore_token) _ w
      (λ _ w'. Waiting w'.session × (is_some w'.session.session_path ≡ true)) _
      (keep_token-Post env results.restore_token w waiting p)
      (λ _ w' h.
        choose_transport-Post env
          (record w' { session = mark_started env (device_list results.devices) w'.session })
          (refl, h.0.2, h.1))

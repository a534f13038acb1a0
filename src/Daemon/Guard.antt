-- ===== src/Daemon/Guard.antt =====
-- What makes no call that sends input, and that the input methods are such in a session that is
-- not started.
pub mod Requests
use py_wayland_auto.Base.{
  ℕ, suc, ◌+◌, ◌≡◌, ◌≢◌, refl, sym, ap, subst, ◌∙◌, Bool, true, false, List, [], ◌∷◌, Option, none,
  some, String, str_eq, if◌then◌else◌, arith, is_some, codes, ◌==◌,
}
use py_wayland_auto.Outcome.{
  BackendError, permission_pending, permission_denied, Exn, Result, ok, raised, backend_error,
}
use py_wayland_auto.Stateful.{lift, raise, bind_with, ◌>>=◌, ◌>>◌}
use py_wayland_auto.Portal.World.{
  State, init, starting, started, stopped, Session, Eis, Env, World, Call, eis_input, notify_motion,
  notify_button, notify_axis, notify_axis_discrete, notify_keysym,
}
use py_wayland_auto.Portal.Start.{start, start_in, begin}
use py_wayland_auto.Portal.Input.Refusal.{
  Input, perform, move_abs_to, move_rel_by, button_to, scroll_by, type_of,
}
use py_wayland_auto.Protocol.{Json, Members, Request, member_of}
use py_wayland_auto.Daemon.Dispatch.{
  Service, Host, D, Reply, in_portal, maybe_watch_eis, ensure_started, started_or, input, status,
  session_start, read_move, read_button, read_scroll, read_key, read_text, dispatch, float_param,
  int_param, key_input, layout_or, status_reply, status_of, state_reply,
}
use py_wayland_auto.Daemon.Handle.{handle_request, handle_line, answered}
use py_wayland_auto.Daemon.Params.{name_param, text_param, truth}
use py_wayland_auto.Wire.{Float}
use py_wayland_auto.Base.Int.{pos, negsuc}

-- The calls that send input, counted.
unfoldable pub inputs : List Call → ℕ
inputs [] = 0
inputs (eis_input i ∷ log) = suc (inputs log)
inputs (notify_motion p x y ∷ log) = suc (inputs log)
inputs (notify_button p c v ∷ log) = suc (inputs log)
inputs (notify_axis p x y ∷ log) = suc (inputs log)
inputs (notify_axis_discrete p a n ∷ log) = suc (inputs log)
inputs (notify_keysym p k v ∷ log) = suc (inputs log)
inputs (c ∷ log) = inputs log

pub begin-inputs : (env : Env) (w : World) → inputs (begin env w).1.log ≡ inputs w.log
unfolding begin inputs
begin-inputs env w = ground arith

pub start-inputs : (env : Env) (w : World) → inputs (start env w).1.log ≡ inputs w.log
unfolding start
start-inputs env w = go w.session.state
  where
    go : (st : State) → inputs (start_in env st w).1.log ≡ inputs w.log
    go init = begin-inputs env w
    go starting = refl
    go started = refl
    go stopped = begin-inputs env w

pub maybe_watch_eis-ok :
    (s : Service) → (s' : Service) × (maybe_watch_eis s ≡ (ok tt, s')) × (s'.world ≡ s.world)
unfolding maybe_watch_eis
maybe_watch_eis-ok s = go s.world.session.eis_client s.eis_watched
  where
    go :
        (c : Option Eis) (b : Bool)
        → (s' : Service) × (◌≡◌ {A = Result (Unit {0}) × Service}
            (elim c [
              | none ↦ (ok tt, s)
              | some _ ↦
                  (if b
                    then (ok tt, s)
                    else (ok tt, record s { eis_watched = true; watches = s.watches + 1 }))
            ])
            (ok tt, s'))
          × (s'.world ≡ s.world)
    go none b = (s, refl, refl)
    go (some c) true = (s, refl, refl)
    go (some c) false = (record s { eis_watched = true; watches = s.watches + 1 }, refl, refl)

-- What made no input call.
abbrev pub Quiet : {A : Type 0} → ℕ → Result A × Service → Type 0
Quiet n r = inputs r.1.world.log ≡ n

-- What raised and made no input call.
abbrev Blocked : {A : Type 0} → ℕ → Result A × Service → Type 0
Blocked n (ok a, s) = ⊥
Blocked n (raised e, s) = inputs s.world.log ≡ n

bind-Blocked :
    {A B : Type 0} (n : ℕ) (r : Result A × Service) (k : A → D B)
    → Blocked n r
    → Blocked n (bind_with r k)
bind-Blocked n (ok a, s) k h = absurd h
bind-Blocked n (raised e, s) k h = h

Blocked-Quiet : {A : Type 0} (n : ℕ) (r : Result A × Service) → Blocked n r → Quiet n r
Blocked-Quiet n (ok a, s) h = absurd h
Blocked-Quiet n (raised e, s) h = h

pub lift-Quiet :
    {A B : Type 0} (n : ℕ) (r : Result A) (k : A → D B) (s : Service)
    → inputs s.world.log ≡ n
    → ((a : A) → Quiet n (k a s))
    → Quiet n ((lift r >>= k) s)
lift-Quiet n (ok a) k s h next = next a
lift-Quiet n (raised e) k s h next = h

pub if-Quiet :
    {A : Type 0} (n : ℕ) (b : Bool) (m k : D A) (s : Service)
    → Quiet n (m s)
    → Quiet n (k s)
    → Quiet n ((if b then m else k) s)
if-Quiet n true m k s p q = p
if-Quiet n false m k s p q = q

module _ (host : Host) where
  begun-Blocked :
      (s : Service)
      → Blocked (inputs s.world.log) (
          (in_portal (start host.env) >> raise {A = Unit {0}} (backend_error permission_pending)) s)
  begun-Blocked s = go (start host.env s.world) (start-inputs host.env s.world)
    where
      go :
          (r : Result (Unit {0}) × World)
          → inputs r.1.log ≡ inputs s.world.log
          → Blocked (inputs s.world.log) (
              bind_with
                (r.0, record s { world = r.1 })
                (λ _. raise {A = Unit {0}} (backend_error permission_pending)))
      go (ok _, w) h = h
      go (raised e, w) h = h

  denied-Blocked :
      (b : Bool) (s : Service)
      → Blocked (inputs s.world.log) (
          if b
          then raise {A = Unit {0}} (backend_error permission_denied) s
          else (in_portal (start host.env)
                >> raise {A = Unit {0}} (backend_error permission_pending))
              s)
  denied-Blocked true s = refl
  denied-Blocked false s = begun-Blocked s

  started_or-Blocked :
      (st : State) (s : Service)
      → st ≢ started
      → Blocked (inputs s.world.log) (started_or host st s)
  started_or-Blocked started s idle = absurd (idle refl)
  started_or-Blocked starting s idle = refl
  started_or-Blocked init s idle = denied-Blocked _ s
  started_or-Blocked stopped s idle = denied-Blocked _ s

  ensure_started-Blocked :
      (s : Service)
      → s.world.session.state ≢ started
      → Blocked (inputs s.world.log) (ensure_started host s)
  unfolding ensure_started
  ensure_started-Blocked s idle =
      let (s', e, same) = maybe_watch_eis-ok s in
      rw e (
        subst (λ w. Blocked (inputs w.log) (started_or host s'.world.session.state s')) same
          (started_or-Blocked s'.world.session.state s' (rw same idle)))

  pub input-Quiet :
      (i : Input) (s : Service)
      → s.world.session.state ≢ started
      → Quiet (inputs s.world.log) (input host i s)
  unfolding input
  input-Quiet i s idle =
      Blocked-Quiet _ _ (bind-Blocked _ _ _ (bind-Blocked _ _ _ (ensure_started-Blocked s idle)))

-- ===== src/Daemon/Guard/Requests.antt =====
-- No request reaches the input of a session that is not started.
use py_wayland_auto.Base.{
  ℕ, ◌+◌, ◌≡◌, ◌≢◌, refl, ap, ◌∙◌, Bool, true, false, Option, String, str_eq, if◌then◌else◌, arith,
  codes,
}
use py_wayland_auto.Outcome.{Result, ok, raised}
use py_wayland_auto.Stateful.{bind_with}
use py_wayland_auto.Portal.World.{started, World}
use py_wayland_auto.Portal.Start.{start}
use py_wayland_auto.Portal.Input.Refusal.{
  Input, move_abs_to, move_rel_by, button_to, scroll_by, type_of,
}
use py_wayland_auto.Protocol.{Json, Members, Request, member_of, decode_request}
use py_wayland_auto.Daemon.Dispatch.{
  Service, Host, Reply, status, session_start, read_move, read_button, read_scroll, read_key,
  read_text, dispatch, float_param, int_param, key_input, layout_or, status_reply, status_of,
  state_reply,
}
use py_wayland_auto.Daemon.Handle.{handle_request, handle_line, answered, or_undecodable}
use py_wayland_auto.Daemon.Params.{name_param, text_param, truth}
use py_wayland_auto.Wire.{Float}
use py_wayland_auto.Base.Int.{pos, negsuc}
use py_wayland_auto.Daemon.Guard.{
  inputs, start-inputs, maybe_watch_eis-ok, Quiet, lift-Quiet, if-Quiet, input-Quiet,
}

module _ (host : Host) where
  read_move-Quiet :
      (make : Float → Float → Input) (kx ky : String) (ps : Members) (s : Service)
      → s.world.session.state ≢ started
      → Quiet (inputs s.world.log) (read_move host make kx ky ps s)
  unfolding read_move
  read_move-Quiet make kx ky ps s idle =
      lift-Quiet _ (float_param host (member_of kx ps)) _ s refl λ x.
        lift-Quiet _ (float_param host (member_of ky ps)) _ s refl
          λ y. input-Quiet host (make x y) s idle

  read_button-Quiet :
      (ps : Members) (s : Service)
      → s.world.session.state ≢ started
      → Quiet (inputs s.world.log) (read_button host ps s)
  unfolding read_button
  read_button-Quiet ps s idle = lift-Quiet _ (name_param (member_of "button" ps)) _ s refl λ name.
      lift-Quiet _ (text_param (member_of "state" ps)) _ s refl
        λ state. input-Quiet host (button_to name state) s idle

  read_scroll-Quiet :
      (ps : Members) (s : Service)
      → s.world.session.state ≢ started
      → Quiet (inputs s.world.log) (read_scroll host ps s)
  unfolding read_scroll
  read_scroll-Quiet ps s idle =
      lift-Quiet _ (int_param host (pos 0) (member_of "dx" ps)) _ s refl λ dx.
        lift-Quiet _ (int_param host (negsuc 0) (member_of "dy" ps)) _ s refl
          λ dy. input-Quiet host (scroll_by dx dy (truth (member_of "discrete" ps))) s idle

  read_key-Quiet :
      (ps : Members) (s : Service)
      → s.world.session.state ≢ started
      → Quiet (inputs s.world.log) (read_key host ps s)
  unfolding read_key
  read_key-Quiet ps s idle = lift-Quiet _ (name_param (member_of "keysym" ps)) _ s refl λ name.
      lift-Quiet _ (text_param (member_of "state" ps)) _ s refl
        λ state. input-Quiet host (key_input name state) s idle

  read_text-Quiet :
      (ps : Members) (s : Service)
      → s.world.session.state ≢ started
      → Quiet (inputs s.world.log) (read_text host ps s)
  unfolding read_text
  read_text-Quiet ps s idle =
      lift-Quiet _ (text_param (member_of "text" ps)) _ s refl
        λ text. input-Quiet host (type_of (codes text)) s idle

  status-Quiet : (s : Service) → Quiet (inputs s.world.log) (status host s)
  unfolding status
  status-Quiet s =
      let (s', e, same) = maybe_watch_eis-ok s in
      rw e (
        answer-Quiet (layout_or host host.layout s') (
          ap (λ t. inputs t.world.log) (layout_or-same host.layout s')
          ∙ ap (λ w. inputs w.log) same))
    where
      layout_or-same : (v : Result Json) (t : Service) → (layout_or host v t).1 ≡ t
      layout_or-same v t = ground arith

      answer-Quiet :
          (r : Result (Option Json) × Service)
          → Quiet (inputs s.world.log) r
          → Quiet
              (inputs s.world.log)
              (bind_with r (λ layout t. (ok (status_reply (status_of t.world.session) layout), t)))
      answer-Quiet (ok layout, t) h = h
      answer-Quiet (raised e, t) h = h

  session_start-Quiet : (s : Service) → Quiet (inputs s.world.log) (session_start host s)
  unfolding session_start
  session_start-Quiet s = go (start host.env s.world) (start-inputs host.env s.world)
    where
      go :
          (r : Result (Unit {0}) × World)
          → inputs r.1.log ≡ inputs s.world.log
          → Quiet (inputs s.world.log) (
              bind_with
                (r.0, record s { world = r.1 })
                (λ _ t. (ok (state_reply t.world.session.state), t)))
      go (ok _, w) h = h
      go (raised e, w) h = h

  dispatch-Quiet :
      (method : String) (ps : Members) (s : Service)
      → s.world.session.state ≢ started
      → Quiet (inputs s.world.log) (dispatch host method ps s)
  unfolding dispatch
  dispatch-Quiet method ps s idle = if-Quiet _ (str_eq method "ping") _ _ s refl (
      if-Quiet _ (str_eq method "status") _ _ s (status-Quiet s) (
        if-Quiet _ (str_eq method "session.start") _ _ s (session_start-Quiet s) (
          if-Quiet _ (str_eq method "daemon.stop") _ _ s refl (
            if-Quiet _ (str_eq method "input.move_abs") _ _ s
              (read_move-Quiet move_abs_to "x" "y" ps s idle)
              (if-Quiet _ (str_eq method "input.move_rel") _ _ s
                (read_move-Quiet move_rel_by "dx" "dy" ps s idle)
                (if-Quiet _ (str_eq method "input.button") _ _ s (read_button-Quiet ps s idle) (
                  if-Quiet _ (str_eq method "input.click") _ _ s (input-Quiet host _ s idle) (
                    if-Quiet _ (str_eq method "input.scroll") _ _ s (read_scroll-Quiet ps s idle) (
                      if-Quiet _ (str_eq method "input.key") _ _ s (read_key-Quiet ps s idle) (
                        if-Quiet _ (str_eq method "input.type_text") _ _ s
                          (read_text-Quiet ps s idle) refl))))))))))

  answered-inputs :
      (req : Request) (n : ℕ) (r : Result Reply × Service)
      → Quiet n r
      → inputs (answered req r).1.world.log ≡ n
  answered-inputs req n (ok reply, s) h = quit-inputs (str_eq req.method "daemon.stop")
    where
      quit-inputs :
          (b : Bool) → inputs (if b then record s { quits = s.quits + 1 } else s).world.log ≡ n
      quit-inputs true = h
      quit-inputs false = h
  answered-inputs req n (raised e, s) h = h

  request-inputs :
      (req : Result Request) (s : Service)
      → s.world.session.state ≢ started
      → inputs (handle_request host req s).1.world.log ≡ inputs s.world.log
  unfolding handle_request
  request-inputs (ok req) s idle =
      answered-inputs req _ _ (dispatch-Quiet req.method req.params s idle)
  request-inputs (raised e) s idle = refl

  -- While the session is not started, no line that a client sends, whatever it holds, makes the
  -- daemon send input to the portal or to the EIS server.
  pub handle_line-inputs :
      (line : Option String) (s : Service)
      → s.world.session.state ≢ started
      → inputs (handle_line host line s).1.world.log ≡ inputs s.world.log
  unfolding handle_line
  handle_line-inputs line s idle =
      request-inputs (or_undecodable (decode_request host.loads) line) s idle

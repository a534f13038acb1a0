-- ===== src/Eis/Client/Framed.antt =====
-- What an input method sends: a frame around one event, and what is left when the event does not fit.
use py_wayland_auto.Base.{
  ℕ, ◌+◌, ◌≡◌, refl, sym, ap, subst, ◌∙◌, Bool, true, false, List, [], ◌∷◌, Option, none, some,
  ◌==◌, if◌then◌else◌, Text, Bytes, codes, arith,
}
use py_wayland_auto.Base.Int.{pos, negsuc}
use py_wayland_auto.Outcome.{Result, ok, raised, struct_error, eis_error, key_error}
use py_wayland_auto.Stateful.{bind_with, ◌>>=◌, ◌>>◌, gets}
use py_wayland_auto.Portal.World.{eis_button}
use py_wayland_auto.Eis.Messages.{Arg, num, pack_message, pack_args, pack_arg}
use py_wayland_auto.Wire.{pack_unsigned}
use py_wayland_auto.Eis.Tables.{
  Request, button_req, start_emulating_req, stop_emulating_req, frame_req,
}
use py_wayland_auto.Eis.Client.{
  Device, Client, Machine, C, get_name, send, send_bytes, begin_frame, end_frame, update_device,
  serial_arg,
}
use py_wayland_auto.Eis.Client.Input.{framed, input, or_missing, device_place}

-- A method that returned in two steps.
bind-ok :
    {A B : Type 0} (m : C A) (k : A → C B) (c c'' : Client) (b : B)
    → (m >>= k) c ≡ (ok b, c'')
    → (a : A) × (c' : Client) × (m c ≡ (ok a, c')) × (k a c' ≡ (ok b, c''))
bind-ok {A} {B} m k c c'' b h = go (m c) h
  where
    go :
        (r : Result A × Client)
        → bind_with r k ≡ (ok b, c'')
        → (a : A) × (c' : Client) × (r ≡ (ok a, c')) × (k a c' ≡ (ok b, c''))
    go (ok a, c') e = (a, c', refl, e)
    go (raised x, c') e = absurd (differ (ap (λ r. r.0) e))
      where
        differ : ◌≡◌ {A = Result B} (raised x) (ok b) → ⊥
        differ e' = cc

module _ (m : Machine) where
  -- The bytes of a request.
  abbrev pub Packs : ℕ → Request → List Arg → Bytes → Type 0
  Packs obj req args raw = pack_message m.order m.floats obj req.0 req.1 args ≡ ok raw

  send-sent :
      (obj : ℕ) (req : Request) (args : List Arg) (c c' : Client)
      → send m obj req args c ≡ (ok tt, c')
      → (raw : Bytes) × Packs obj req args raw × (c' ≡ record c { sent = raw ∷ c.sent })
  unfolding send send_bytes
  send-sent obj req args c c' h = go (pack_message m.order m.floats obj req.0 req.1 args) h
    where
      accepted :
          (raw : Bytes) (b : Bool)
          → if◌then◌else◌ {A = Result (Unit {0}) × Client} b
              (ok tt, record c { sent = raw ∷ c.sent })
              (raised eis_error, c)
            ≡ (ok tt, c')
          → c' ≡ record c { sent = raw ∷ c.sent }
      accepted raw true e = sym (ap (λ r. r.1) e)
      accepted raw false e = absurd (differ (ap (λ r. r.0) e))
        where
          differ : ◌≡◌ {A = Result (Unit {0})} (raised eis_error) (ok tt) → ⊥
          differ e' = cc

      go :
          (r : Result Bytes)
          → bind_with (r, c) (send_bytes m) ≡ (ok tt, c')
          → (raw : Bytes) × (r ≡ ok raw) × (c' ≡ record c { sent = raw ∷ c.sent })
      go (ok raw) e = (raw, refl, accepted raw (m.accepts c.sent raw) e)
      go (raised x) e = absurd (differ (ap (λ r. r.0) e))
        where
          differ : ◌≡◌ {A = Result (Unit {0})} (raised x) (ok tt) → ⊥
          differ e' = cc

  -- One framed batch: start_emulating with the next number of the device, the event on its part,
  -- frame with the clock, stop_emulating, in this order and with nothing between them.
  pub record IsBatch (name : Text) (req : Request) (args : List Arg) (place : ℕ) (c c' : Client)
      : Type 0 where
    pub part : ℕ
    pub start : Bytes
    pub event : Bytes
    pub frame : Bytes
    pub stop : Bytes
    pub found : get_name name (c.store place).sub ≡ some part
    pub started :
        Packs
          (c.store place).object_id
          start_emulating_req
          (serial_arg m c ∷ num (pos ((c.store place).seq + 1)) ∷ [])
          start
    pub evented : Packs part req args event
    pub stamped :
        Packs
          (c.store place).object_id
          frame_req
          (serial_arg m c ∷ num (pos (m.monotonic_us (event ∷ start ∷ c.sent))) ∷ [])
          frame
    pub stopped : Packs (c.store place).object_id stop_emulating_req (serial_arg m c ∷ []) stop
    pub all_sent : c'.sent ≡ stop ∷ frame ∷ event ∷ start ∷ c.sent
    pub counted : (c'.store place).seq ≡ (c.store place).seq + 1

  counted_device : ℕ → Client → Client
  counted_device place c = update_device place (λ d. record d { seq = d.seq + 1 }) c

  counted_device-store :
      (place : ℕ) (c : Client)
      → ((counted_device place c).store place)
        ≡ record (c.store place) { seq = (c.store place).seq + 1 }
  unfolding counted_device
  counted_device-store place c = let here : (place == place) ≡ true = ground arith in rw here refl

  begin_frame-sent :
      (place : ℕ) (c c' : Client)
      → begin_frame m place c ≡ (ok tt, c')
      → (raw : Bytes) × Packs
          (c.store place).object_id
          start_emulating_req
          (serial_arg m c ∷ num (pos ((c.store place).seq + 1)) ∷ [])
          raw
        × (c' ≡ record (counted_device place c) { sent = raw ∷ c.sent })
  unfolding begin_frame counted_device
  begin_frame-sent place c c' h =
      let c1 = counted_device place c in
      let (raw, packed, e) =
        send-sent (c1.store place).object_id start_emulating_req
          (serial_arg m c ∷ num (pos (c1.store place).seq) ∷ []) c1 c' h in
      (
        raw,
        subst
            (λ (d : Device).
              Packs d.object_id start_emulating_req (serial_arg m c ∷ num (pos d.seq) ∷ []) raw)
            (counted_device-store place c) packed,
        e,
      )

  end_frame-sent :
      (place : ℕ) (c c' : Client)
      → end_frame m place c ≡ (ok tt, c')
      → (frame stop : Bytes) × Packs
          (c.store place).object_id
          frame_req
          (serial_arg m c ∷ num (pos (m.monotonic_us c.sent)) ∷ [])
          frame
        × Packs (c.store place).object_id stop_emulating_req (serial_arg m c ∷ []) stop
        × (c' ≡ record c { sent = stop ∷ frame ∷ c.sent })
  unfolding end_frame
  end_frame-sent place c c' h =
      let (u, c1, first, later) =
        bind-ok
          (send m (c.store place).object_id frame_req
            (serial_arg m c ∷ num (pos (m.monotonic_us c.sent)) ∷ []))
          (λ _ s. send m (c.store place).object_id stop_emulating_req (serial_arg m s ∷ []) s) c c'
          tt h in
      let (frame, p, e) =
        send-sent (c.store place).object_id frame_req
          (serial_arg m c ∷ num (pos (m.monotonic_us c.sent)) ∷ []) c c1 first in
      let (stop, q, e') =
        send-sent (c.store place).object_id stop_emulating_req (serial_arg m c1 ∷ []) c1 c' later in
      (
        frame,
        stop,
        p,
        subst
            (λ (s : Client).
              Packs (c.store place).object_id stop_emulating_req (serial_arg m s ∷ []) stop)
            e q,
        e' ∙ ap (λ (s : Client). record s { sent = stop ∷ s.sent }) e,
      )

  abbrev event_part : Text → Request → List Arg → ℕ → C (Unit {0})
  event_part name req args place = do
    found ← gets (λ c. get_name name (c.store place).sub)
    part ← or_missing found
    send m part req args
    end_frame m place

  -- What follows start_emulating, from any state.
  record IsRest (name : Text) (req : Request) (args : List Arg) (place : ℕ) (c c' : Client)
      : Type 0 where
    part : ℕ
    event : Bytes
    frame : Bytes
    stop : Bytes
    found : get_name name (c.store place).sub ≡ some part
    evented : Packs part req args event
    stamped :
        Packs
          (c.store place).object_id
          frame_req
          (serial_arg m c ∷ num (pos (m.monotonic_us (event ∷ c.sent))) ∷ [])
          frame
    stopped : Packs (c.store place).object_id stop_emulating_req (serial_arg m c ∷ []) stop
    state : c' ≡ record c { sent = stop ∷ frame ∷ event ∷ c.sent }

  event_part-sent :
      (name : Text) (req : Request) (args : List Arg) (place : ℕ) (c c' : Client)
      → event_part name req args place c ≡ (ok tt, c')
      → IsRest name req args place c c'
  event_part-sent name req args place c c' h = go (get_name name (c.store place).sub) refl h
    where
      go :
          (r : Option ℕ)
          → get_name name (c.store place).sub ≡ r
          → (or_missing r >>= λ part. send m part req args >> end_frame m place) c ≡ (ok tt, c')
          → IsRest name req args place c c'
      go none found e = absurd (differ (ap (λ r. r.0) e))
        where
          differ : ◌≡◌ {A = Result (Unit {0})} (raised key_error) (ok tt) → ⊥
          differ e' = cc
      go (some part) found e =
          let (u, c1, first, later) =
            bind-ok (send m part req args) (λ _. end_frame m place) c c' tt e in
          let (event, packed, here) = send-sent part req args c c1 first in
          let (frame, stop, p, q, end) =
            end_frame-sent place (record c { sent = event ∷ c.sent }) c'
              (subst (λ (s : Client). end_frame m place s ≡ (ok tt, c')) here later) in
          record {
            part = part;
            event = event;
            frame = frame;
            stop = stop;
            found = found;
            evented = packed;
            stamped = p;
            stopped = q;
            state = end;
          }

  -- A method of a device that returns has sent one whole batch, and used the device's next number.
  pub framed-sent :
      (name : Text) (req : Request) (args : List Arg) (place : ℕ) (c c' : Client)
      → framed m name req args place c ≡ (ok tt, c')
      → IsBatch name req args place c c'
  unfolding framed counted_device
  framed-sent name req args place c c' h =
      let (u, c1, first, later) =
        bind-ok (begin_frame m place) (λ _. event_part name req args place) c c' tt h in
      let (start, started, here) = begin_frame-sent place c c1 first in
      let c2 = record (counted_device place c) { sent = start ∷ c.sent } in
      let rest : IsRest name req args place c2 c' =
        event_part-sent name req args place c2 c'
          (subst (λ (s : Client). event_part name req args place s ≡ (ok tt, c')) here later) in
      let same = counted_device-store place c in
      record {
        part = rest.part;
        start = start;
        event = rest.event;
        frame = rest.frame;
        stop = rest.stop;
        found = subst (λ (d : Device). get_name name d.sub ≡ some rest.part) same rest.found;
        started = started;
        evented = rest.evented;
        stamped =
            subst
              (λ (d : Device).
                Packs d.object_id frame_req
                  (serial_arg m c ∷ num (pos (m.monotonic_us (rest.event ∷ start ∷ c.sent))) ∷ [])
                  rest.frame)
              same rest.stamped;
        stopped =
            subst
              (λ (d : Device). Packs d.object_id stop_emulating_req (serial_arg m c ∷ []) rest.stop)
              same rest.stopped;
        all_sent = ap (λ s. s.sent) rest.state;
        counted = ap (λ (s : Client). (s.store place).seq) rest.state ∙ ap (λ d. d.seq) same;
      }

  -- A negative button code, on a client whose pointer has the button part: if start_emulating goes
  -- out, the call raises struct.error with start_emulating as the last message: no frame and no
  -- stop_emulating follow, and the device stays emulating.
  pub negative_button-sent :
      (n state place part : ℕ) (c c' : Client)
      → c.pointer ≡ some place
      → get_name (codes "ei_button") (c.store place).sub ≡ some part
      → begin_frame m place c ≡ (ok tt, c')
      → (start : Bytes) × Packs
          (c.store place).object_id
          start_emulating_req
          (serial_arg m c ∷ num (pos ((c.store place).seq + 1)) ∷ [])
          start
        × (input m (eis_button (negsuc n) state) c ≡ (raised struct_error, c'))
        × (c'.sent ≡ start ∷ c.sent)
  unfolding input framed counted_device send pack_message pack_args pack_arg pack_unsigned
  negative_button-sent n state place part c c' here has first =
      let (start, started, e) = begin_frame-sent place c c' first in
      let sub : get_name (codes "ei_button") (c'.store place).sub ≡ some part =
        ap (λ (s : Client). get_name (codes "ei_button") (s.store place).sub) e
        ∙ ap (λ (d : Device). get_name (codes "ei_button") d.sub) (counted_device-store place c)
        ∙ has in
      let args : List Arg = num (negsuc n) ∷ num (pos state) ∷ [] in
      let batch : ℕ → C (Unit {0}) = framed m (codes "ei_button") button_req args in
      let rest : Option ℕ → C (Unit {0}) =
        λ found. or_missing found >>= λ id. send m id button_req args >> end_frame m place in
      (
        start,
        started,
        ap (λ (p : Option ℕ). (device_place p >>= batch) c) here
            ∙ ap
                (λ (r : Result (Unit {0}) × Client).
                  bind_with r (λ _. event_part (codes "ei_button") button_req args place))
                first
            ∙ ap (λ (r : Option ℕ). rest r c') sub,
        ap (λ s. s.sent) e,
      )

-- ===== src/Eis/Client/Safe.antt =====
-- The input methods after a handshake: which exceptions they raise.
use py_wayland_auto.Base.{
  ℕ, ◌+◌, ◌≡◌, refl, sym, ap, subst, ◌∙◌, Bool, true, false, List, [], ◌∷◌, Option, none, some,
  is_some, ◌==◌, if◌then◌else◌, Text, Bytes, codes, arith,
}
use py_wayland_auto.Base.Int.{pos}
use py_wayland_auto.Outcome.{Result, ok, raised, eis_error}
use py_wayland_auto.Stateful.{bind_with, ◌>>=◌, ◌>>◌}
use py_wayland_auto.Wire.{Float}
use py_wayland_auto.Portal.World.{
  EisInput, motion_relative, motion_absolute, eis_button, scroll_discrete, scroll_smooth,
  keyboard_key,
}
use py_wayland_auto.Eis.Messages.{Arg, num, real, pack_message}
use py_wayland_auto.Eis.Tables.{
  Request, key_req, motion_relative_req, motion_absolute_req, button_req, scroll_req,
  scroll_discrete_req, start_emulating_req, stop_emulating_req, frame_req,
}
use py_wayland_auto.Eis.Client.{
  Client, Machine, C, get_name, send, send_bytes, begin_frame, end_frame, update_device, new_client,
  serial_arg,
}
use py_wayland_auto.Eis.Client.Input.{
  framed, input, in_regions, within_regions, or_missing, device_place,
}
use py_wayland_auto.Eis.Client.Handshake.{Round, handshake}
use py_wayland_auto.Eis.Client.Parts.{HasPart, keyboard_name, pointer_name, absolute_name}
use py_wayland_auto.Eis.Client.Ready.{IsReady, handshake-IsReady}
use py_wayland_auto.Eis.Client.Harmless.{IsHarmless, Harmless, Sendable, message-Harmless}

-- What holds where a method returns, if it raises nothing harmful.
abbrev Fine : {A : Type 0} → Result A × Client → (A → Client → Type 0) → Type 0
Fine (ok a, c) Q = Q a c
Fine (raised e, c) Q = IsHarmless e

bind-Fine :
    {A B : Type 0} (m : C A) (k : A → C B) (c : Client) (P : A → Client → Type 0)
    (Q : B → Client → Type 0)
    → Fine (m c) P
    → ((a : A) (c' : Client) → P a c' → Fine (k a c') Q)
    → Fine ((m >>= k) c) Q
bind-Fine {A} m k c P Q h next = go (m c) h
  where
    go : (r : Result A × Client) → Fine r P → Fine (bind_with r k) Q
    go (ok a, c') p = next a c' p
    go (raised e, c') p = p

Fine-Harmless :
    {A : Type 0} (r : Result A × Client) (P : A → Client → Type 0) → Fine r P → Harmless r.0
Fine-Harmless (ok a, c) P h = tt
Fine-Harmless (raised e, c) P h = h

-- The store is as it was.
abbrev SameStore : Client → Unit {0} → Client → Type 0
SameStore c u c' = c'.store ≡ c.store

-- The parts of the device at a place are as they were.
abbrev SameSub : ℕ → Client → Unit {0} → Client → Type 0
SameSub place c u c' = (c'.store place).sub ≡ (c.store place).sub

module _ (m : Machine) where
  send_bytes-Fine : (raw : Bytes) (c : Client) → Fine (send_bytes m raw c) (SameStore c)
  unfolding send_bytes
  send_bytes-Fine raw c = go (m.accepts c.sent raw)
    where
      go :
          (b : Bool)
          → Fine
              (if◌then◌else◌ {A = Result (Unit {0}) × Client} b
                (ok tt, record c { sent = raw ∷ c.sent })
                (raised eis_error, c))
              (SameStore c)
      go true = refl
      go false = tt

  send-Fine :
      (obj : ℕ) (req : Request) (args : List Arg) (c : Client)
      → Sendable req.1 args
      → Fine (send m obj req args c) (SameStore c)
  unfolding send
  send-Fine obj req args c h =
      go (pack_message m.order m.floats obj req.0 req.1 args)
        (message-Harmless m.order m.floats obj req args h)
    where
      go : (r : Result Bytes) → Harmless r → Fine (bind_with (r, c) (send_bytes m)) (SameStore c)
      go (ok raw) p = send_bytes-Fine raw c
      go (raised e) p = p

  begin_frame-Fine : (place : ℕ) (c : Client) → Fine (begin_frame m place c) (SameSub place c)
  unfolding begin_frame
  begin_frame-Fine place c =
      let c1 = update_device place (λ d. record d { seq = d.seq + 1 }) c in
      let same : (c1.store place).sub ≡ (c.store place).sub = same_sub (place == place) in
      weaken c1 same _ (
        send-Fine (c1.store place).object_id start_emulating_req
          (serial_arg m c1 ∷ num (pos (c1.store place).seq) ∷ []) c1 (tt, (tt, tt)))
    where
      same_sub :
          (b : Bool)
          → (if b
              then record (c.store place) { seq = (c.store place).seq + 1 }
              else c.store place).sub
            ≡ (c.store place).sub
      same_sub true = refl
      same_sub false = refl

      weaken :
          (c1 : Client)
          → (c1.store place).sub ≡ (c.store place).sub
          → (r : Result (Unit {0}) × Client) → Fine r (SameStore c1)
          → Fine r (SameSub place c)
      weaken c1 same (ok u, c') p = ap (λ store. (store place).sub) p ∙ same
      weaken c1 same (raised e, c') p = p

  end_frame-Fine : (place : ℕ) (c : Client) → Fine (end_frame m place c) (λ u c'. Unit)
  unfolding end_frame
  end_frame-Fine place c =
      let obj = (c.store place).object_id in
      bind-Fine (send m obj frame_req (serial_arg m c ∷ num (pos (m.monotonic_us c.sent)) ∷ [])) _ c
        (SameStore c) (λ u c'. Unit) (send-Fine obj frame_req _ c (tt, (tt, tt)))
        (λ u c' p.
          any (SameStore c') _
            (send-Fine obj stop_emulating_req (serial_arg m c' ∷ []) c' (tt, tt)))
    where
      any :
          (P : Unit {0} → Client → Type 0) (r : Result (Unit {0}) × Client)
          → Fine r P
          → Fine r (λ u c'. Unit)
      any P (ok u, c') p = tt
      any P (raised e, c') p = p

  framed-Fine :
      (name : Text) (req : Request) (args : List Arg) (place : ℕ) (c : Client)
      → is_some (get_name name (c.store place).sub) ≡ true
      → Sendable req.1 args
      → Fine (framed m name req args place c) (λ u c'. Unit)
  unfolding framed
  framed-Fine name req args place c part h =
      bind-Fine (begin_frame m place) _ c (SameSub place c) (λ u c'. Unit)
        (begin_frame-Fine place c)
        (λ u c' same.
          after_begin c' (get_name name (c'.store place).sub)
            (subst (λ sub. is_some (get_name name sub) ≡ true) (sym same) part))
    where
      after_begin :
          (c' : Client) (found : Option ℕ)
          → is_some found ≡ true
          → Fine
              (bind_with (or_missing found c') (λ part. send m part req args >> end_frame m place))
              (λ u c''. Unit)
      after_begin c' none e = absurd (false_eq e)
        where
          false_eq : ◌≡◌ {A = Bool} false true → ⊥
          false_eq e = cc
      after_begin c' (some id) e =
          bind-Fine (send m id req args) (λ u. end_frame m place) c' (SameStore c') (λ u c''. Unit)
            (send-Fine id req args c' h) (λ u c'' p. end_frame-Fine place c'')

abbrev pub HasNamed : Text → Client → Type 0
HasNamed name c = (is_some c.pointer ≡ true) × HasPart name c.pointer c.allocated c.store

-- What an input method needs: the pointer, with the part that is used. The keyboard and the absolute
-- pointer are there after a handshake.
abbrev pub Needs : EisInput → Client → Type 0
Needs (keyboard_key keycode state) c = Unit
Needs (motion_absolute x y) c = Unit
Needs (motion_relative dx dy) c = is_some c.pointer ≡ true
Needs (eis_button button state) c = HasNamed (codes "ei_button") c
Needs (scroll_discrete dx dy) c = HasNamed (codes "ei_scroll") c
Needs (scroll_smooth dx dy) c = HasNamed (codes "ei_scroll") c

module _ (m : Machine) where
  placed-Fine :
      (name : Text) (req : Request) (args : List Arg) (o : Option ℕ) (c : Client)
      → is_some o ≡ true
      → HasPart name o c.allocated c.store
      → Sendable req.1 args
      → Fine (bind_with (device_place o c) (framed m name req args)) (λ u c'. Unit)
  placed-Fine name req args none c e part h = cc
  placed-Fine name req args (some place) c e part h = framed-Fine m name req args place c part.1 h

  placed-Harmless :
      (name : Text) (req : Request) (args : List Arg) (o : Option ℕ) (c : Client)
      → is_some o ≡ true
      → HasPart name o c.allocated c.store
      → Sendable req.1 args
      → Harmless (bind_with (device_place o c) (framed m name req args)).0
  placed-Harmless name req args o c e part h =
      Fine-Harmless _ (λ u c'. Unit) (placed-Fine name req args o c e part h)

  within-Harmless :
      (x y : Float) (o : Option ℕ) (c : Client)
      → is_some o ≡ true
      → HasPart absolute_name o c.allocated c.store
      → Harmless (bind_with (device_place o c) (within_regions m x y)).0
  within-Harmless x y none c e part = cc
  within-Harmless x y (some place) c e part = inside (in_regions m (c.store place).regions x y) (
      Fine-Harmless _ (λ u c'. Unit)
        (framed-Fine m absolute_name motion_absolute_req (real x ∷ real y ∷ []) place c part.1
          (tt, (tt, tt))))
    where
      inside :
          (b : Bool)
          → Harmless (framed m absolute_name motion_absolute_req (real x ∷ real y ∷ []) place c).0
          → Harmless
              (if◌then◌else◌ {A = Result (Unit {0}) × Client} b
                (framed m absolute_name motion_absolute_req (real x ∷ real y ∷ []) place c)
                (raised eis_error, c)).0
      inside true h = h
      inside false h = tt

  IsReady-Harmless : (i : EisInput) (c : Client) → IsReady c → Needs i c → Harmless (input m i c).0
  unfolding input
  IsReady-Harmless (keyboard_key keycode state) c ready needs =
      placed-Harmless keyboard_name key_req _ c.keyboard c (ground (arith, ready.complete))
        ready.wired.0 (tt, (tt, tt))
  IsReady-Harmless (motion_absolute x y) c ready needs =
      within-Harmless x y c.pointer_abs c (ground (arith, ready.complete)) ready.wired.2
  IsReady-Harmless (motion_relative dx dy) c ready needs =
      placed-Harmless pointer_name motion_relative_req _ c.pointer c needs ready.wired.1
        (tt, (tt, tt))
  IsReady-Harmless (eis_button button state) c ready needs =
      placed-Harmless (codes "ei_button") button_req _ c.pointer c needs.0 needs.1 (tt, (tt, tt))
  IsReady-Harmless (scroll_discrete dx dy) c ready needs =
      placed-Harmless (codes "ei_scroll") scroll_discrete_req _ c.pointer c needs.0 needs.1
        (tt, (tt, tt))
  IsReady-Harmless (scroll_smooth dx dy) c ready needs =
      placed-Harmless (codes "ei_scroll") scroll_req _ c.pointer c needs.0 needs.1 (tt, (tt, tt))

  -- Whatever the server sends during a handshake: if it returns, a key event and an absolute motion
  -- of the client raise nothing but the failure of the connection, a position outside the regions,
  -- and a number or a float that does not fit its field; no device and no part of one is missing.
  -- The other input methods do so too if the client has a pointer with the part that they use.
  pub handshake-Harmless :
      (fuel : ℕ) (rounds rest : List Round) (buf buf' : Bytes) {c : Client}
      → handshake m fuel rounds new_client buf ≡ some (ok tt, c, buf', rest)
      → (i : EisInput) → Needs i c
      → Harmless (input m i c).0
  handshake-Harmless fuel rounds rest buf buf' {c} h i needs =
      IsReady-Harmless i c (handshake-IsReady m fuel rounds rest buf buf' h) needs

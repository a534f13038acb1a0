-- ===== src/Eis/Client/Ready.antt =====
-- What the end of a handshake promises to the input methods.
use py_wayland_auto.Base.{
  ℕ, ◌≡◌, subst, Bool, true, false, List, [], ◌∷◌, ◌++◌, none, some, Bytes, String, codes,
  Bool-cases, inl, inr,
}
use py_wayland_auto.Base.Int.{pos}
use py_wayland_auto.Outcome.{Result, ok, raised, eis_error}
use py_wayland_auto.Stateful.{◌>>◌}
use py_wayland_auto.Eis.Messages.{num, text}
use py_wayland_auto.Eis.Tables.{
  Interface, interfaces, handshake_version_req, context_type_req, name_req, interface_version_req,
  finish_req,
}
use py_wayland_auto.Eis.Frames.{next_frame}
use py_wayland_auto.Framing.Kept.{AtEnd, drain-AtEnd}
use py_wayland_auto.Eis.Client.{Client, Machine, C, send, new_client}
use py_wayland_auto.Eis.Client.Handlers.{dispatch}
use py_wayland_auto.Eis.Client.Handshake.{
  Arrival, nothing_yet, failed, closed, received, Round, Ended, Waited, has_version, is_complete,
  pump_once, wait, announce, announce_interfaces, then_complete, then_announce, handshake,
  known_version, min_one,
}
use py_wayland_auto.Eis.Client.Wired.{Wired, Keeps, bind-Keeps}
use py_wayland_auto.Eis.Client.Wired.Events.{dispatch-Wired, send-Keeps}

-- What a loop of the handshake that has an end leaves: a wired client, and one that passes the test
-- if the loop returned.
abbrev Passed : (Client → Bool) → Waited → Type 0
Passed test none = Unit
Passed test (some (ok _, c, buf, rounds)) = Wired c × (test c ≡ true)
Passed test (some (raised e, c, buf, rounds)) = Wired c

module _ (m : Machine) where
  pump_once-Wired :
      (fuel : ℕ) (a : Arrival) (c : Client) (buf : Bytes)
      → Wired c
      → AtEnd Wired (pump_once m fuel a c buf)
  unfolding pump_once
  pump_once-Wired fuel nothing_yet c buf w = w
  pump_once-Wired fuel failed c buf w = w
  pump_once-Wired fuel closed c buf w = w
  pump_once-Wired fuel (received chunk fds) c buf w =
      drain-AtEnd (next_frame m.order) (dispatch m) Wired (dispatch-Wired m) fuel
        (record c { pending_fds = c.pending_fds ++ fds }) (buf ++ chunk) w

  wait-Passed :
      (test : Client → Bool) (fuel : ℕ) (rounds : List Round) (c : Client) (buf : Bytes)
      → Wired c
      → Passed test (wait m test fuel rounds c buf)
  unfolding wait
  wait-Passed test fuel [] c buf w = elim (Bool-cases (test c)) [
    | inl t ↦ rw t (w, t)
    | inr f ↦ rw f tt
  ]
  wait-Passed test fuel (round ∷ rounds) c buf w = elim (Bool-cases (test c)) [
    | inl t ↦ rw (t, wait) (w, t)
    | inr f ↦
        rw (f, wait)
          (go (pump_once m fuel round.arrival c buf) round.expired
            (pump_once-Wired fuel round.arrival c buf w) (wait-Passed test fuel rounds))
  ]
    where
      go :
          (r : Ended) (expired : Bool)
          → AtEnd Wired r
          → ((c' : Client) (buf' : Bytes)
              → Wired c'
              → Passed test (wait m test fuel rounds c' buf'))
          → Passed test (elim r [
            | none ↦ none
            | some (r, c', buf') ↦ elim r [
              | raised e ↦ some (raised e, c', buf', rounds)
              | ok _ ↦ elim expired [
                | true ↦ some (raised eis_error, c', buf', rounds)
                | false ↦ wait m test fuel rounds c' buf'
              ]
            ]
          ])
      go none b w' later = tt
      go (some (raised e, c', buf')) b w' later = w'
      go (some (ok _, c', buf')) true w' later = w'
      go (some (ok _, c', buf')) false w' later = later c' buf' w'

  then-Keeps : (k l : C (Unit {0})) → Keeps k → Keeps l → Keeps (k >> l)
  then-Keeps k l first later = bind-Keeps k (λ _. l) first (λ _. later)

  interfaces-Keeps : (rows : List (String × Interface × ℕ)) → Keeps (announce_interfaces m rows)
  unfolding announce_interfaces
  interfaces-Keeps [] = λ c w. w
  interfaces-Keeps ((name, i, version) ∷ rest) =
      then-Keeps (send m 0 interface_version_req (text (codes name) ∷ num (pos version) ∷ []))
        (announce_interfaces m rest) (send-Keeps m 0 _ _) (interfaces-Keeps rest)

  announce-Keeps : Keeps (announce m)
  unfolding announce
  announce-Keeps c =
      let version = num (pos (min_one (known_version m c.server_version))) ∷ [] in
      let finish : C (Unit {0}) = send m 0 finish_req [] in
      let named : C (Unit {0}) = announce_interfaces m interfaces >> finish in
      let typed : C (Unit {0}) = send m 0 name_req (text (codes "pywaylandauto") ∷ []) >> named in
      let rest : C (Unit {0}) = send m 0 context_type_req (num (pos 2) ∷ []) >> typed in
      then-Keeps (send m 0 handshake_version_req version) rest (send-Keeps m 0 _ _)
        (then-Keeps (send m 0 context_type_req (num (pos 2) ∷ [])) typed (send-Keeps m 0 _ _) (
          then-Keeps (send m 0 name_req (text (codes "pywaylandauto") ∷ [])) named
            (send-Keeps m 0 _ _)
            (then-Keeps (announce_interfaces m interfaces) finish (interfaces-Keeps interfaces)
              (send-Keeps m 0 _ _))))
        c

  handshake-Passed :
      (fuel : ℕ) (rounds : List Round) (c : Client) (buf : Bytes)
      → Wired c
      → Passed is_complete (handshake m fuel rounds c buf)
  unfolding handshake
  handshake-Passed fuel rounds c buf w = go _ (wait-Passed has_version fuel rounds c buf w)
    where
      complete :
          (rest : List Round) (buf' : Bytes) (r : Result (Unit {0}) × Client)
          → Wired r.1
          → Passed is_complete (then_complete m fuel rest buf' r)
      complete rest buf' (raised e, c') w' = w'
      complete rest buf' (ok _, c') w' = wait-Passed is_complete fuel rest c' buf' w'

      go : (r : Waited) → Passed has_version r → Passed is_complete (then_announce m fuel r)
      go none p = tt
      go (some (raised e, c', buf', rest)) p = p
      go (some (ok _, c', buf', rest)) p =
          complete rest buf' (announce m c') (announce-Keeps c' p.0)

-- A client whose handshake returned.
pub record IsReady (c : Client) : Type 0 where
  pub wired : Wired c
  pub complete : is_complete c ≡ true

pub handshake-IsReady :
    (m : Machine) (fuel : ℕ) (rounds rest : List Round) (buf buf' : Bytes) {c : Client}
    → handshake m fuel rounds new_client buf ≡ some (ok tt, c, buf', rest)
    → IsReady c
handshake-IsReady m fuel rounds rest buf buf' {c} h =
    let p : Passed is_complete (some (ok tt, c, buf', rest)) =
      subst (Passed is_complete) h
        (handshake-Passed m fuel rounds new_client buf (tt, tt, tt, tt)) in
    record { wired = p.0; complete = p.1 }

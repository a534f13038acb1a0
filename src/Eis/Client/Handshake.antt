-- ===== src/Eis/Client/Handshake.antt =====
-- pywaylandauto/backends/eis.py: `_pump_once`, `handshake` and `close`. What arrives on the socket and
-- whether the deadline has passed are a list of rounds; a loop that has used them up is still
-- waiting. The messages of one arrival are dispatched in at most `fuel` rounds.
use py_wayland_auto.Base.{
  ℕ, Bool, true, false, ◌&&◌, List, [], ◌∷◌, ◌++◌, Option, none, some, is_some, if◌then◌else◌,
  Bytes, codes, String, ltb,
}
use py_wayland_auto.Base.Int.{ℤ, pos}
use py_wayland_auto.Outcome.{Exn, Result, ok, raised, eis_error, os_error}
use py_wayland_auto.Stateful.{pure, raise, ◌>>=◌, ◌>>◌, gets, catch_with}
use py_wayland_auto.Eis.Messages.{num, text}
use py_wayland_auto.Eis.Tables.{
  Interface, interfaces, handshake_version_req, context_type_req, name_req, interface_version_req,
  finish_req, disconnect_req,
}
use py_wayland_auto.Eis.Frames
use py_wayland_auto.Eis.Client.{Client, Machine, C, send}
use py_wayland_auto.Eis.Client.Handlers.{dispatch}

-- What `recvmsg` gives: BlockingIOError, OSError, no bytes, or bytes and descriptors.
pub data Arrival : Type 0 where
  nothing_yet failed closed : Arrival
  received : Bytes → List ℤ → Arrival

pub record Round : Type 0 where
  pub arrival : Arrival
  pub expired : Bool

-- What a call ended with: its outcome, the client, the buffer. `none` is no end.
abbrev pub Ended : Type 0
Ended = Option (Result (Unit {0}) × Client × Bytes)

-- The same with the rounds that are left.
abbrev pub Waited : Type 0
Waited = Option (Result (Unit {0}) × Client × Bytes × List Round)

abbrev pub min_one : ℕ → ℕ
min_one v = if ltb v 1 then v else 1

abbrev pub has_version : Client → Bool
has_version c = is_some c.server_version

-- What the second loop of `handshake` waits for.
abbrev pub is_complete : Client → Bool
is_complete c =
    is_some c.connection_id
    && is_some c.bound_mask
    && is_some c.keyboard
    && is_some c.pointer_abs
    && is_some c.keymap_text

module _ (m : Machine) where
  -- `_pump_once`
  unfoldable pub pump_once : ℕ → Arrival → Client → Bytes → Ended
  unfolding Frames.drain dispatch
  pump_once fuel nothing_yet c buf = some (ok tt, c, buf)
  pump_once fuel failed c buf = some (raised eis_error, c, buf)
  pump_once fuel closed c buf = some (raised eis_error, c, buf)
  pump_once fuel (received chunk fds) c buf =
      Frames.drain m.order (dispatch m) fuel (record c { pending_fds = c.pending_fds ++ fds })
        (buf ++ chunk)

  -- The loops of `handshake`: until the test holds, or an error, or the deadline.
  unfoldable pub wait : (Client → Bool) → ℕ → List Round → Client → Bytes → Waited
  unfolding pump_once
  wait test fuel [] c buf = if test c then some (ok tt, c, buf, []) else none
  wait test fuel (round ∷ rounds) c buf = elim (test c) [
    | true ↦ some (ok tt, c, buf, round ∷ rounds)
    | false ↦ elim (pump_once fuel round.arrival c buf) [
      | none ↦ none
      | some (r, c', buf') ↦ elim r [
        | raised e ↦ some (raised e, c', buf', rounds)
        | ok _ ↦ elim round.expired [
          | true ↦ some (raised eis_error, c', buf', rounds)
          | false ↦ wait test fuel rounds c' buf'
        ]
      ]
    ]
  ]

  unfoldable pub announce_interfaces : List (String × Interface × ℕ) → C (Unit {0})
  unfolding send
  announce_interfaces [] = pure tt
  announce_interfaces ((name, i, version) ∷ rest) =
      send m 0 interface_version_req (text (codes name) ∷ num (pos version) ∷ [])
      >> announce_interfaces rest

  -- The second part of `handshake`.
  abbrev pub announce_version : ℕ → C (Unit {0})
  announce_version v = do
    send m 0 handshake_version_req (num (pos (min_one v)) ∷ [])
    send m 0 context_type_req (num (pos 2) ∷ [])
    send m 0 name_req (text (codes "pywaylandauto") ∷ [])
    announce_interfaces interfaces
    send m 0 finish_req []

  -- The first loop ends with a version.
  abbrev pub known_version : Option ℕ → ℕ
  known_version none = 0
  known_version (some v) = v

  unfoldable pub announce : C (Unit {0})
  unfolding announce_interfaces send
  announce = gets (λ c. known_version c.server_version) >>= announce_version

  abbrev pub then_complete : ℕ → List Round → Bytes → Result (Unit {0}) × Client → Waited
  then_complete fuel rounds buf (raised e, c) = some (raised e, c, buf, rounds)
  then_complete fuel rounds buf (ok _, c) = wait is_complete fuel rounds c buf

  abbrev pub then_announce : ℕ → Waited → Waited
  then_announce fuel none = none
  then_announce fuel (some (raised e, c, buf, rounds)) = some (raised e, c, buf, rounds)
  then_announce fuel (some (ok _, c, buf, rounds)) = then_complete fuel rounds buf (announce c)

  -- `handshake`
  unfoldable pub handshake : ℕ → List Round → Client → Bytes → Waited
  unfolding wait announce
  handshake fuel rounds c buf = then_announce fuel (wait has_version fuel rounds c buf)

  -- `close` handles OSError, which `_send` has turned into EisError.
  abbrev pub ignoring_os : Exn → C (Unit {0})
  ignoring_os os_error = pure tt
  ignoring_os e = raise e

  abbrev pub disconnect : Option ℕ → C (Unit {0})
  disconnect none = pure tt
  disconnect (some id) = send m id disconnect_req []

  unfoldable pub close : C (Unit {0})
  unfolding send
  close c = catch_with (disconnect c.connection_id c) ignoring_os

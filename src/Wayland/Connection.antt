-- ===== src/Wayland/Connection.antt =====
-- pywaylandauto/backends/wayland.py, `WaylandConnection`: its state, `alloc_id`, `send`, `bind`,
-- `_dispatch`, `pump` and `sync`. The session that owns the connection, `handler`, is a parameter:
-- its listeners and its state; a listener that receives on the connection itself is outside of the
-- model. How much of a message the kernel takes is a parameter.
pub mod Stream
pub mod Sync
pub mod Ids
pub mod Reach
pub mod Sent
use py_wayland_auto.Base.{
  ℕ, ◌+◌, ◌-◌, ◌/◌, ◌%◌, ◌^◌, Bool, true, false, ◌&&◌, List, [], ◌∷◌, ◌++◌, Option, none, some,
  is_some, str_eq, String, codes, ltb, ◌==◌, if◌then◌else◌, length, take, drop, Bytes,
}
use py_wayland_auto.Base.Int.{ℤ, pos, negsuc}
use py_wayland_auto.Outcome.{Exn, Result, ok, raised, wayland_error, key_error, struct_error}
use py_wayland_auto.Outcome
use py_wayland_auto.Stateful.{Stateful, pure, raise, bind_with, ◌>>=◌, ◌>>◌, gets, change, lift}
use py_wayland_auto.Dict.{put_key, get_key, del_key}
use py_wayland_auto.Framing
use py_wayland_auto.Wire.{ByteOrder, get}
use py_wayland_auto.Eis.Messages.{Arg, num, text}
use py_wayland_auto.Wayland.Messages.{Kind, pack_message, unpack_args, descriptors}
use py_wayland_auto.Wayland.Tables.{find_request, find_event}

-- `WaylandConnection` without the receive buffer, which is passed beside it; sent lists the
-- bytes that went out with their descriptors, the newest first, and owner is the state of the session.
pub record Connection (S : Type 0) : Type 0 where
  pub pending_fds : List ℤ
  pub objects : List (ℕ × String)
  pub next_id : ℕ
  pub display_id : ℕ
  pub sent : List (Bytes × List ℤ)
  pub owner : S

-- `__init__`: the display is object 1.
abbrev pub new_connection : {S : Type 0} → S → Connection S
new_connection owner = record {
  pending_fds = [];
  objects = (1, "wl_display") ∷ [];
  next_id = 2;
  display_id = 1;
  sent = [];
  owner = owner;
}

-- A message as `_dispatch` is given it.
pub record Frame : Type 0 where
  pub obj : ℕ
  pub opcode : ℕ
  pub payload : Bytes

abbrev pub word_at : ByteOrder → ℕ → Bytes → ℕ
word_at o p buf = get o (take 4 (drop p buf))

-- The size that the header has.
abbrev pub header_size : ByteOrder → Bytes → ℕ
header_size o buf = word_at o 4 buf / 65536

-- `self._buf[:size]`, taken apart.
abbrev pub cut_frame : ByteOrder → ℕ → Bytes → Frame × Bytes
cut_frame o size buf = (
  record {
    obj = word_at o 0 buf;
    opcode = word_at o 4 buf % 65536;
    payload = take (size - 8) (drop 8 buf);
  },
  drop size buf,
)

-- The test of the loop of `pump` and of its `break`.
unfoldable pub next_frame : ByteOrder → Bytes → Option (Frame × Bytes)
next_frame o buf =
    if ltb (length buf) 8
    then none
    else if ltb (length buf) (header_size o buf)
    then none
    else some (cut_frame o (header_size o buf) buf)

-- `struct.pack` of the descriptors as C ints.
abbrev pub fit_int : List ℤ → Bool
fit_int [] = true
fit_int (pos n ∷ fds) = ltb n (2 ^ 31) && fit_int fds
fit_int (negsuc n ∷ fds) = ltb n (2 ^ 31) && fit_int fds

-- How the sending of a message ends: with an OSError at once, or with the whole message taken, or
-- with so many bytes of it, behind which `sendmsg` returns and `sendall` meets an OSError.
pub data Taken : Type 0 where
  whole broken : Taken
  part : ℕ → Taken

-- What `recvmsg` gives: BlockingIOError, another OSError, or bytes and descriptors; no bytes at the
-- end of the connection.
pub data Arrival : Type 0 where
  nothing_yet failed : Arrival
  received : Bytes → List ℤ → Arrival

-- A round of the loop of `sync`: what `pump` receives, and whether the deadline has passed behind it.
pub record Round : Type 0 where
  pub arrival : Arrival
  pub expired : Bool

module _ (S : Type 0) where
  abbrev pub W : Type 0 → Type 0
  W = Stateful (Connection S)

  -- What `sync` ended with, the buffer, and the rounds that are left; `none` is still waiting.
  abbrev pub Synced : Type 0
  Synced = Option (Result (Unit {0}) × Connection S × Bytes × List Round)

  -- The machine, how much the kernel takes of a message by what was sent before, and the method
  -- `_on_<iface>_<name>` of `handler`, if there is one.
  pub record Setting : Type 0 where
    pub order : ByteOrder
    pub taken : List (Bytes × List ℤ) → Bytes → List ℤ → Taken
    pub listener : String → String → Option (ℕ → List Arg → W (Unit {0}))

module _ {S : Type 0} (m : Setting S) where
  unfoldable pub alloc_id : W S ℕ
  alloc_id = do
    id ← gets (λ c. c.next_id)
    change (λ c. record c { next_id = c.next_id + 1 })
    pure id

  -- `self.objects[obj_id] = iface`
  abbrev pub set_object : ℕ → String → W S (Unit {0})
  set_object id iface = change (λ c. record c { objects = put_key id iface c.objects })

  abbrev pub request_or : Option (ℕ × List Kind) → Result (ℕ × List Kind)
  request_or none = raised key_error
  request_or (some request) = ok request

  abbrev pub log_sent : Bytes → List ℤ → W S (Unit {0})
  log_sent raw fds = change (λ c. record c { sent = (raw, fds) ∷ c.sent })

  -- `sendmsg` with descriptors, whose result is dropped, and `sendall` without.
  abbrev pub send_taken : Taken → Bytes → List ℤ → W S (Unit {0})
  send_taken whole raw fds = log_sent raw fds
  send_taken broken raw fds = raise wayland_error
  send_taken (part n) raw [] = log_sent (take n raw) [] >> raise wayland_error
  send_taken (part n) raw (fd ∷ fds) = log_sent (take n raw) (fd ∷ fds)

  unfoldable pub send_bytes : Bytes → List ℤ → W S (Unit {0})
  send_bytes raw fds c =
      if fit_int fds
      then send_taken (m.taken c.sent raw fds) raw fds c
      else (raised struct_error, c)

  unfoldable pub send : ℕ → String → String → List Arg → W S (Unit {0})
  unfolding send_bytes descriptors find_request pack_message
  send obj iface name args = do
    (opcode, sig) ← lift (request_or (find_request iface name))
    raw ← lift (pack_message m.order obj opcode sig args)
    send_bytes raw (descriptors sig args)

  unfoldable pub bind : ℕ → ℕ → String → ℕ → W S ℕ
  unfolding alloc_id send
  bind registry_id name iface version = do
    id ← alloc_id
    set_object id iface
    send registry_id "wl_registry" "bind"
        (num (pos name) ∷ text (codes iface) ∷ num (pos version) ∷ num (pos id) ∷ [])
    pure id

  -- `_on_wl_callback_done`
  abbrev pub on_callback_done : ℕ → W S (Unit {0})
  on_callback_done id = change (λ c. record c { objects = del_key id c.objects })

  abbrev pub handle_with : Option (ℕ → List Arg → W S (Unit {0})) → ℕ → List Arg → W S (Unit {0})
  handle_with none id args = pure tt
  handle_with (some handler) id args = handler id args

  -- The choice of the handler: the connection's own, or the owner's, or none.
  unfoldable pub handle_event : String → String → ℕ → List Arg → W S (Unit {0})
  handle_event iface name id args =
      if str_eq iface "wl_callback" && str_eq name "done"
      then on_callback_done id
      else handle_with (m.listener iface name) id args

  -- `unpack_args` on the pending descriptors.
  abbrev pub with_fds : {A : Type 0} → Stateful (List ℤ) A → W S A
  with_fds read c = let (r, fds) = read c.pending_fds in (r, record c { pending_fds = fds })

  abbrev pub handle_found : Option (String × List Kind) → String → Frame → W S (Unit {0})
  handle_found none iface f = pure tt
  handle_found (some (name, sig)) iface f =
      with_fds (unpack_args m.order sig f.payload 0) >>= λ r. handle_event iface name f.obj r.0

  abbrev pub iface_or : Option String → String
  iface_or none = ""
  iface_or (some iface) = iface

  -- `_dispatch`
  unfoldable pub dispatch : Frame → W S (Unit {0})
  unfolding find_event handle_event unpack_args get_key del_key
  dispatch f c =
      let iface = iface_or (get_key f.obj c.objects) in
      handle_found (find_event iface f.opcode) iface f c

  -- `pump`, of which the loop has at most `fuel` rounds.
  unfoldable pub pump :
      ℕ → Arrival → Connection S → Bytes → Option (Result (Unit {0}) × Connection S × Bytes)
  unfolding Framing.drain next_frame dispatch
  pump fuel nothing_yet c buf = some (ok tt, c, buf)
  pump fuel failed c buf = some (raised wayland_error, c, buf)
  pump fuel (received [] fds) c buf = some (raised wayland_error, c, buf)
  pump fuel (received (b ∷ bs) fds) c buf =
      Framing.drain (next_frame m.order) dispatch fuel
        (record c { pending_fds = c.pending_fds ++ fds }) (buf ++ b ∷ bs)

  -- Behind a `pump` of the loop: an exception, the deadline, or the next round.
  abbrev pub go_on :
      Bool
      → (Connection S → Bytes → Synced S)
      → List Round
      → Option (Result (Unit {0}) × Connection S × Bytes)
      → Synced S
  go_on expired next rounds none = none
  go_on expired next rounds (some (raised e, c, buf)) = some (raised e, c, buf, rounds)
  go_on true next rounds (some (ok u, c, buf)) = some (raised wayland_error, c, buf, rounds)
  go_on false next rounds (some (ok u, c, buf)) = next c buf

  -- `while callback_id in self.objects`
  unfoldable pub wait_done : ℕ → ℕ → List Round → Connection S → Bytes → Synced S
  unfolding pump
  wait_done fuel id [] c buf =
      if is_some (get_key id c.objects) then none else some (ok tt, c, buf, [])
  wait_done fuel id (round ∷ rounds) c buf = elim (is_some (get_key id c.objects)) [
    | false ↦ some (ok tt, c, buf, round ∷ rounds)
    | true ↦ go_on round.expired (wait_done fuel id rounds) rounds (pump fuel round.arrival c buf)
  ]

  -- `sync` up to its loop.
  unfoldable pub ask_sync : W S ℕ
  unfolding alloc_id send
  ask_sync = do
    id ← alloc_id
    set_object id "wl_callback"
    display ← gets (λ c. c.display_id)
    send display "wl_display" "sync" (num (pos id) ∷ [])
    pure id

  abbrev pub then_wait : ℕ → List Round → Bytes → Result ℕ × Connection S → Synced S
  then_wait fuel rounds buf (raised e, c) = some (raised e, c, buf, rounds)
  then_wait fuel rounds buf (ok id, c) = wait_done fuel id rounds c buf

  unfoldable pub sync : ℕ → List Round → Connection S → Bytes → Synced S
  unfolding ask_sync wait_done
  sync fuel rounds c buf = then_wait fuel rounds buf (ask_sync c)

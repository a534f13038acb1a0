-- ===== src/Client.antt =====
-- pywaylandauto/client.py: the state of a `Client`, `connect` and `close`, reading a line, and
-- `request`. What the operating system answers is a parameter: the attempts to connect, and what
-- `recv` gives before the deadline of a request.
pub mod Lines
pub mod Ends
pub mod Answers
pub mod Requests
use py_wayland_auto.Base.{
  ℕ, zero, suc, ◌+◌, ◌==◌, Bool, true, false, List, [], ◌∷◌, ◌++◌, Option, none, some, Bytes, codes,
  String, if◌then◌else◌,
}
use py_wayland_auto.Base.Int.{ℤ, pos, negsuc}
use py_wayland_auto.Outcome.{
  Exn, Result, ok, raised, os_error, timeout_error, connection_error, value_error, remote_error,
}
use py_wayland_auto.Outcome
use py_wayland_auto.Stateful.{Stateful, pure, raise, ◌>>=◌, ◌>>◌, gets, change, lift}
use py_wayland_auto.Utf8.{encode}
use py_wayland_auto.Protocol.{Json, Members, encode_request}
use py_wayland_auto.Protocol.Responses.{Outgoing, result, error, Incoming, decode_response}
use py_wayland_auto.Daemon.Lines.{newline}

-- `Client`, with what was sent, the newest first, how many daemons were spawned, and whether the
-- system lets it start a process.
pub record Client : Type 0 where
  pub auto_spawn : Bool
  pub can_spawn : Bool
  pub connected : Bool
  pub buf : Bytes
  pub req_id : ℕ
  pub sent : List Bytes
  pub spawns : ℕ

abbrev pub new_client : Bool → Bool → Client
new_client auto_spawn can_spawn = record {
  auto_spawn = auto_spawn;
  can_spawn = can_spawn;
  connected = false;
  buf = [];
  req_id = 0;
  sent = [];
  spawns = 0;
}

-- How `_try_connect` ends: refused is ConnectionRefusedError or FileNotFoundError, failed another
-- OSError.
pub data Attempt : Type 0 where
  accepted refused failed : Attempt

abbrev pub C : Type 0 → Type 0
C = Stateful Client

abbrev pub mark_connected : C (Unit {0})
mark_connected = change (λ c. record c { connected = true })

-- The loop of `connect`: it tries once at least, and the last attempt of the list is the one behind
-- which the deadline has passed.
unfoldable pub retry : Attempt → List Attempt → C (Unit {0})
retry accepted rest = mark_connected
retry failed rest = raise os_error
retry refused [] = raise connection_error
retry refused (attempt ∷ rest) = retry attempt rest

-- `_spawn_daemon`; `Popen` raises an OSError where no process can be started.
abbrev pub spawn_daemon : C (Unit {0})
spawn_daemon c =
    if c.can_spawn then (ok tt, record c { spawns = c.spawns + 1 }) else (raised os_error, c)

-- The handler of a refusal.
abbrev pub spawning : Attempt → List Attempt → C (Unit {0})
spawning next rest c =
    if c.auto_spawn then (spawn_daemon >> retry next rest) c else (raised connection_error, c)

-- `connect` without a socket, by the first attempt and those of the loop.
abbrev pub first_attempt : Attempt → Attempt → List Attempt → C (Unit {0})
first_attempt accepted next rest = mark_connected
first_attempt failed next rest = raise os_error
first_attempt refused next rest = spawning next rest

-- `connect`
unfoldable pub connect : Attempt → Attempt → List Attempt → C (Unit {0})
unfolding retry
connect first next rest c = if c.connected then (ok tt, c) else first_attempt first next rest c

-- `close`
unfoldable pub close : Client → Client
close c = record c { connected = false; buf = [] }

-- What `recv` does: it waits until the socket's timeout, it fails, or it gives bytes, which are none
-- if the daemon has closed the connection.
pub data Arrival : Type 0 where
  silent broken : Arrival
  chunk : Bytes → Arrival

abbrev pub onto_line : ℕ → Option (Bytes × Bytes) → Option (Bytes × Bytes)
onto_line b none = none
onto_line b (some (line, rest)) = some (b ∷ line, rest)

-- `buf.partition(b"\n")` where there is a newline.
unfoldable pub break_line : Bytes → Option (Bytes × Bytes)
break_line [] = none
break_line (b ∷ bs) =
    let rest = break_line bs in if b == newline then some ([], bs) else onto_line b rest

-- A read: the line or the error, the buffer, and what has not arrived yet.
abbrev pub Read : Type 0
Read = Result Bytes × Bytes × List Arrival

-- The loop of `_read_line`; behind the last arrival the deadline has passed.
unfoldable pub read_line : List Arrival → Bytes → Read
unfolding break_line
read_line [] buf = elim (break_line buf) [
  | none ↦ (raised timeout_error, buf, [])
  | some (line, rest) ↦ (ok line, rest, [])
]
read_line (arrival ∷ arrivals) buf = elim (break_line buf) [
  | some (line, rest) ↦ (ok line, rest, arrival ∷ arrivals)
  | none ↦ elim arrival [
    | silent ↦ (raised timeout_error, buf, arrivals)
    | broken ↦ (raised os_error, buf, arrivals)
    | chunk bs ↦ elim bs [
      | [] ↦ (raised connection_error, buf, arrivals)
      | b ∷ more ↦ read_line arrivals (buf ++ b ∷ more)
    ]
  ]
]

-- The interpreter and the socket: JSON, `str` of a value, UTF-8 with an error for what is not, and
-- whether `sendall` goes through, by what was sent before.
pub record Peer : Type 0 where
  pub loads : String → Option Json
  pub dumps : Json → String
  pub show : Json → String
  pub text_of : Bytes → Option String
  pub accepts : List Bytes → Bytes → Bool

abbrev pub is_id : ℤ → ℕ → Bool
is_id (pos n) k = n == k
is_id (negsuc n) k = false

abbrev pub or_undecodable : Option String → Result String
or_undecodable none = raised value_error
or_undecodable (some line) = ok line

-- What a response is to the caller.
abbrev pub answer : Outgoing → Result Json
answer (result v) = ok v
answer (error code message) = raised (remote_error code message)

-- How a call ends; `none` is no end.
abbrev pub Ended : Type 0
Ended = Option (Result Json × Client × List Arrival)

module _ (p : Peer) where
  unfoldable pub line_response : Bytes → Result Incoming
  unfolding decode_response
  line_response raw =
      Outcome.◌>>=◌ (or_undecodable (p.text_of raw)) (λ line. decode_response p.show p.loads line)

  -- `sendall`
  unfoldable pub send : Bytes → C (Unit {0})
  send raw c =
      if p.accepts c.sent raw
      then (ok tt, record c { sent = raw ∷ c.sent })
      else (raised os_error, c)

  -- The bytes of `encode_request`.
  unfoldable pub request_bytes : ℕ → String → Members → Result Bytes
  unfolding encode_request
  request_bytes id method params =
      Outcome.◌>>=◌ (encode (codes (encode_request p.dumps (pos id) method params)))
        (λ raw. ok (raw ++ newline ∷ []))

  -- The loop of `request`, at most `fuel` lines.
  unfoldable pub await : ℕ → List Arrival → Client → Ended
  unfolding read_line line_response
  await zero arrivals c = none
  await (suc fuel) arrivals c =
      let (line, buf, later) = read_line arrivals c.buf in
      elim (Outcome.◌>>=◌ line line_response) [
        | raised e ↦ some (raised e, record c { buf = buf }, later)
        | ok response ↦ elim (is_id response.id c.req_id) [
          | false ↦ await fuel later (record c { buf = buf })
          | true ↦ some (answer response.outgoing, record c { buf = buf }, later)
        ]
      ]

  unfoldable pub post : String → Members → C (Unit {0})
  unfolding request_bytes send
  post method params = do
    change (λ c. record c { req_id = c.req_id + 1 })
    id ← gets (λ c. c.req_id)
    raw ← lift (request_bytes id method params)
    send raw

  abbrev pub then_await : ℕ → List Arrival → Result (Unit {0}) × Client → Ended
  then_await fuel arrivals (raised e, c) = some (raised e, c, arrivals)
  then_await fuel arrivals (ok u, c) = await fuel arrivals c

  -- `request`
  unfoldable pub request :
      ℕ → Attempt → Attempt → List Attempt → List Arrival → String → Members → Client → Ended
  unfolding connect post await
  request fuel first next rest arrivals method params c =
      then_await fuel arrivals ((connect first next rest >> post method params) c)

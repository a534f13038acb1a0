-- ===== src/Lib.antt =====
-- PyWaylandAuto: input injection on Wayland through the RemoteDesktop portal. A daemon holds one
-- portal session and serves requests over a socket; the session asks the portal for permission,
-- keeps the restore token in a file, and sends input either by Notify calls or over an EIS
-- connection, whose wire format, keymap and keysyms the package has itself.
--
-- Parts and files:
-- - Keysyms (pywaylandauto/keysyms.py): the table of names in Keysyms/Table, `lookup` in Keysyms,
--   what it uses of Python's texts in Keysyms/Hex.
-- - Xkb (pywaylandauto/backends/xkb.py): `Keymap` in Map, `Keymap.resolve`, `us_fallback` and
--   `build_resolver` in Xkb, the US table in Rows. Scan has the regular expressions (`\d` for ASCII
--   digits), `finditer` and `split`, Symbols `_symbol_value`, Parse `parse_keymap_text`. `finditer`
--   runs on as many rounds as there are characters, which is enough.
-- - Utf8 and Wire: what the codecs use of `str.encode`, `bytes.decode` and `struct`, for both byte
--   orders; integers are of fixed width and out of range raises. Floats are bit patterns, and
--   their conversions to single precision are parameters.
-- - Eis/Messages (pywaylandauto/backends/eis_messages.py): packing and unpacking of messages by
--   signature.
-- - Framing (pywaylandauto/backends/eis.py, `_pump_once`, and wayland.py, `pump`): the loop that
--   cuts received bytes into messages, over a reader of messages that meets the laws `Reads`. It
--   runs on a number of rounds; on a stream of messages one round more than there are messages is
--   enough.
-- - Eis/Frames (pywaylandauto/backends/eis.py, `_pump_once`): the reader and the loop of the EIS
--   client. The dispatcher is a parameter.
-- - Eis/Tables (both files): the interfaces, the requests and the events of each.
-- - Eis/Client (pywaylandauto/backends/eis.py, `EisClient`): the state, `_send` and the frames in
--   Client; Handlers has `_dispatch` and the event handlers, Input the input methods, Handshake
--   `_pump_once`, `handshake` and `close`. Device objects stand in a store, since two fields may
--   name the same device. A handshake runs on a list of rounds, each with what the socket gives and
--   whether the deadline has passed behind it; with no round left it is still waiting.
-- - Wayland (pywaylandauto/backends/wayland.py): the codec in Messages, the requests and the events
--   in Tables, `WaylandConnection` in Connection, whose children prove: Stream the reader of
--   messages, Sent what the other end reads, Ids and Reach the object ids, Sync the roundtrip. The
--   kernel, which may take a message in part, and the session that owns the connection are
--   parameters; `sync` runs on a list of rounds as the EIS handshake does.
-- - Dict and Spaces: dictionaries in insertion order; `str.strip` and `str.split`.
-- - TokenCache (pywaylandauto/token_cache.py): `load`, `save` and `revoke` on a file, a temporary
--   file and the directory's mode, with a fault of the operating system at every call as a
--   parameter. Text mode reads a carriage return as a line feed, and writes as on Linux.
-- - Portal (pywaylandauto/backends/portal.py, `PortalSession`, and `Backend` of
--   pywaylandauto/backends/base.py): World has the attributes of the session and the calls that
--   leave it; a method is a function from a world to a result and a world, and what it changed
--   stays changed when it raises. The portal, the bus and the EIS client are an environment that
--   answers each call by the calls before it, with a value or any exception. Start has `start` and
--   `stop`, Select the choice of devices, Link the transport, Flow the receivers of the portal's
--   signals; Input has the input methods, by Pointer and Keys, without a coordinate translator.
-- - Protocol (pywaylandauto/protocol.py): JSON values, `encode_request` and `decode_request`;
--   Responses has `encode_response` and `decode_response`. The JSON parser and printer of the
--   standard library are parameters.
-- - Client (pywaylandauto/client.py): the state of a `Client`, `connect`, `_read_line` and
--   `request`, on a list of attempts to connect and a list of what `recv` gives until the deadline;
--   whether a daemon can be started is a field of the state;
--   Lines, Answers, Requests and Ends hold their proofs. The loop of `request` runs on a number of
--   rounds: more rounds than there are bytes are enough.
-- - Daemon (pywaylandauto/daemon.py): Lines cuts what a client sends into lines; Params, Dispatch
--   and Handle take a line to its response; Errors has the codes. Its state is the world of the
--   session, the flag of the EIS watch, and how often the main loop was asked for a watch and for
--   a quit.
-- - Cli (pywaylandauto/cli.py): `_call_with_dialog_wait`, `_split_chord`, `cmd_key`, `cmd_click`,
--   `cmd_button`, `cmd_type` and `_run_input`, over a client that answers by the calls so far; a wait
--   runs on as many rounds as the deadline leaves. Cli/Chords has what `cmd_key` gets done.
-- - Stateful has the shape of the methods of the session, the daemon and the EIS client: a function
--   from a state to a result and a state, where what was changed stays changed after a raise.
-- - Outcome has the exceptions, Base what all share, Tests the theorems at concrete inputs.
--
-- The daemon calls the session; the session loads and saves the token by TokenCache, and resolves
-- keys by Xkb, which resolves names by Keysyms. The state machine of a session is the relation
-- `Step` of Portal/Flow/Steps: `start`, a `stop` that returns, the Closed signal, and the answer
-- to the request that was made last. An answer that arrives after the session has left its flow is
-- outside of `Step`: the source never removes a receiver, and does not test the state there. The
-- relation `Happening` of Portal/Flow/Late has the answers to any receiver in any state.
--
-- Not modelled: how a Wayland connection is opened, the daemon's socket and main loop, the arguments
-- of the command line and its other commands, the monitors and the coordinate translators; log
-- messages and the texts of exceptions, on which nothing branches; handle tokens are numbered where
-- the source draws them at random.
pub mod Base
pub mod Keysyms
pub mod Xkb
pub mod Outcome
pub mod Stateful
pub mod Utf8
pub mod Wire
pub mod Framing
pub mod Dict
pub mod Spaces
pub mod Eis
pub mod Wayland
pub mod TokenCache
pub mod Portal
pub mod Protocol
pub mod Daemon
pub mod Cli
pub mod Client
pub mod Tests

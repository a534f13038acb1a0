-- ===== src/Cli.antt =====
-- pywaylandauto/cli.py: the input commands and the wait for the dialog. What the client answers is a
-- parameter; what is printed is left out.
pub mod Chords
use py_wayland_auto.Base.{
  ℕ, zero, suc, Bool, true, false, ◌||◌, List, [], ◌∷◌, Option, none, some, String, Text, codes,
  str_eq, if◌then◌else◌, map,
}
use py_wayland_auto.Outcome.{
  Exn, Result, ok, raised, remote_error, connection_error, timeout_error, system_exit,
}
use py_wayland_auto.Stateful.{Stateful, pure, raise, ◌>>=◌, ◌>>◌, gets, catch, lift}
use py_wayland_auto.Spaces.{strip, split_on}
use py_wayland_auto.Protocol.{Json}

-- Parameters of a request, each a text.
abbrev pub Params : Type 0
Params = List (String × Text)

-- A call of the client, with what it answered: `request`, or `status` while the dialog is shown.
pub data Exchange : Type 0 where
  replied : String → Params → Result Json → Exchange
  polled : Exchange

-- The calls so far, the newest first.
abbrev pub Calls : Type 0
Calls = List Exchange

-- `Client.request`, whether `status` tells that the session is started (an exception is no), and how
-- often the deadline of a wait has not passed yet, each by the calls so far.
pub record Link : Type 0 where
  pub answer : Calls → String → Params → Result Json
  pub is_started : Calls → Bool
  pub polls : Calls → ℕ

abbrev pub refusal_code : Exn → Option String
refusal_code (remote_error code message) = some code
refusal_code e = none

-- `_split_chord`: the modifiers and the key.
abbrev pub put_first : Text → Result (List Text × Text) → Result (List Text × Text)
put_first part (ok (mods, key)) = ok (part ∷ mods, key)
put_first part (raised e) = raised e

unfoldable pub chord_of : List Text → Result (List Text × Text)
chord_of [] = raised system_exit
chord_of ([] ∷ parts) = raised system_exit
chord_of ((c ∷ cs) ∷ []) = ok ([], c ∷ cs)
chord_of ((c ∷ cs) ∷ p ∷ parts) = put_first (c ∷ cs) (chord_of (p ∷ parts))

unfoldable pub split_chord : Text → Result (List Text × Text)
unfolding strip split_on chord_of
split_chord spec = chord_of (map strip (split_on b'+' spec))

abbrev pub key_params : Text → String → Params
key_params keysym state = ("keysym", keysym) ∷ ("state", codes state) ∷ []

unfoldable pub reversed : List Text → List Text → List Text
reversed done [] = done
reversed done (t ∷ ts) = reversed (t ∷ done) ts

module _ (link : Link) where
  abbrev pub M : Type 0 → Type 0
  M = Stateful Calls

  -- `client.request`
  unfoldable pub requested : String → Params → M Json
  requested method params calls =
      let r = link.answer calls method params in (r, replied method params r ∷ calls)

  abbrev pub poll : M Bool
  poll calls = (ok (link.is_started calls), polled ∷ calls)

  -- The loop that polls, of so many rounds until the deadline has passed.
  unfoldable pub await_dialog : ℕ → M (Unit {0})
  await_dialog zero = raise system_exit
  await_dialog (suc n) =
      let later = await_dialog n in poll >>= λ started. if started then pure tt else later

  -- `except protocol.RemoteError as e`, by its code.
  abbrev pub by_code : String → Params → Exn → Option String → M Json
  by_code method params e none = raise e
  by_code method params e (some code) =
      if str_eq code "permission_pending"
      then ((gets link.polls >>= await_dialog) >> requested method params)
      else if str_eq code "permission_denied"
      then raise system_exit
      else raise e

  unfoldable pub after_refusal : String → Params → Exn → M Json
  unfolding await_dialog requested
  after_refusal method params e = by_code method params e (refusal_code e)

  -- `_call_with_dialog_wait`
  unfoldable pub call_with_dialog_wait : String → Params → M Json
  unfolding requested after_refusal
  call_with_dialog_wait method params =
      catch (requested method params) (after_refusal method params)

  -- The handlers of `_run_input`.
  abbrev pub die_on : Exn → M ℕ
  die_on (remote_error code message) = raise system_exit
  die_on connection_error = raise system_exit
  die_on timeout_error = raise system_exit
  die_on e = raise e

  -- `_run_input`
  unfoldable pub run_input : String → Params → M ℕ
  unfolding call_with_dialog_wait
  run_input method params = catch (call_with_dialog_wait method params >>= λ _. pure 0) die_on

  abbrev pub call_key : String → Text → M Json
  call_key state keysym = call_with_dialog_wait "input.key" (key_params keysym state)

  -- `for mod in mods`
  unfoldable pub call_keys : String → List Text → M (Unit {0})
  unfolding call_with_dialog_wait
  call_keys state [] = pure tt
  call_keys state (t ∷ ts) = let rest = call_keys state ts in call_key state t >>= λ _. rest

  -- `cmd_key`
  unfoldable pub cmd_key : Text → M ℕ
  unfolding split_chord call_with_dialog_wait call_keys reversed
  cmd_key spec = do
    (mods, key) ← lift (split_chord spec)
    call_keys "press" mods
    _ ← call_key "tap" key
    call_keys "release" (reversed [] mods)
    pure 0

  -- `cmd_click`, `cmd_button` and `cmd_type`
  unfoldable pub cmd_click : Text → M ℕ
  unfolding run_input
  cmd_click button = run_input "input.click" (("button", button) ∷ [])

  unfoldable pub cmd_button : Text → Text → M ℕ
  unfolding run_input
  cmd_button button state = run_input "input.button" (("button", button) ∷ ("state", state) ∷ [])

  unfoldable pub cmd_type : Text → M ℕ
  unfolding run_input
  cmd_type text = run_input "input.type_text" (("text", text) ∷ [])

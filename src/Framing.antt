-- ===== src/Framing.antt =====
-- How a connection cuts received bytes into messages and hands them to a dispatcher, in
-- pywaylandauto/backends/eis.py (`_pump_once`) and wayland.py (`pump`). What a message is and where
-- it ends is a parameter, and so are the dispatcher and its state.
pub mod Drain
pub mod Chunks
pub mod Kept
pub mod Wedge
use py_wayland_auto.Base.{ℕ, zero, suc, ◌≡◌, List, [], ◌∷◌, ◌++◌, Option, none, some, Bytes}
use py_wayland_auto.Outcome.{Result, ok, raised}

-- The dispatcher on a list of messages until it raises.
unfoldable pub dispatch_all :
    {M S : Type 0} (dispatch : M → S → Result (Unit {0}) × S) → S → List M → Result (Unit {0}) × S
dispatch_all dispatch s [] = (ok tt, s)
dispatch_all dispatch s (message ∷ messages) =
    let (r, s') = dispatch message s in
    elim r [ ok _ ↦ dispatch_all dispatch s' messages | raised e ↦ (raised e, s') ]

-- The bytes of messages, one after the other.
unfoldable pub stream : {M : Type 0} (written : M → Bytes) → List M → Bytes
stream written [] = []
stream written (m ∷ ms) = written m ++ stream written ms

module _ {M S : Type 0} (next : Bytes → Option (M × Bytes))
    (dispatch : M → S → Result (Unit {0}) × S) where
  -- The `while` loop on a number of rounds; `none` means that it is not over by then. An exception
  -- of the dispatcher leaves the rest in the buffer.
  unfoldable pub drain : ℕ → S → Bytes → Option (Result (Unit {0}) × S × Bytes)
  drain zero s buf = none
  drain (suc fuel) s buf = elim (next buf) [
    | none ↦ some (ok tt, s, buf)
    | some (message, rest) ↦
        (let (r, s') = dispatch message s in
          elim r [ ok _ ↦ drain fuel s' rest | raised e ↦ some (raised e, s', rest) ])
  ]

  -- One call that receives `chunk`.
  abbrev pub pump : ℕ → S → Bytes → Bytes → Option (Result (Unit {0}) × S × Bytes)
  pump fuel s buf chunk = drain fuel s (buf ++ chunk)

  -- Calls until one raises.
  unfoldable pub pump_all : ℕ → S → Bytes → List Bytes → Option (Result (Unit {0}) × S × Bytes)
  pump_all fuel s buf [] = some (ok tt, s, buf)
  pump_all fuel s buf (chunk ∷ chunks) = elim (pump fuel s buf chunk) [
    | none ↦ none
    | some (r, s', buf') ↦ elim r [
      | ok _ ↦ pump_all fuel s' buf' chunks
      | raised e ↦ some (raised e, s', buf')
    ]
  ]

-- What a reader of messages must do: it takes a message that was written off the front, finds the
-- same message when more bytes follow, and finds none in no bytes.
pub record Reads {M : Type 0} (next : Bytes → Option (M × Bytes)) (written : M → Bytes)
    (Fits : M → Type 0) : Type 0 where
  pub first : (m : M) (rest : Bytes) → Fits m → next (written m ++ rest) ≡ some (m, rest)
  pub more :
      (bs later rest : Bytes) (m : M)
      → next bs ≡ some (m, rest)
      → next (bs ++ later) ≡ some (m, rest ++ later)
  pub empty : next [] ≡ none

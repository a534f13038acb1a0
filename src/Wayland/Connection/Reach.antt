-- ===== src/Wayland/Connection/Reach.antt =====
-- The connections that can come about, and that an id which is given out is no object's.
use py_wayland_auto.Base.{ℕ, ◌≡◌, List, none, some, String, Bytes}
use py_wayland_auto.Outcome.{Result}
use py_wayland_auto.Eis.Messages.{Arg}
use py_wayland_auto.Wayland.Connection.{
  Connection, new_connection, Setting, Arrival, Round, Synced, send, bind, pump, sync,
}
use py_wayland_auto.Wayland.Connection.Ids.{Fresh}

-- What holds of the connection, where `sync` comes to an end.
abbrev AtSynced : {S : Type 0} → Synced S → Type 0
AtSynced none = Unit
AtSynced (some (r, c, buf, rounds)) = Fresh c

-- The connections that a use of the connection can leave: binding, sending any request, receiving
-- and syncing, with whatever arrives.
pub data Reach {S : Type 0} (m : Setting S) : Connection S → Type 0 where
  opened : (owner : S) → Reach m (new_connection owner)
  bound :
      {c : Connection S} (registry name : ℕ) (iface : String) (version : ℕ)
      → Reach m c
      → Reach m (bind m registry name iface version c).1
  asked :
      {c : Connection S} (obj : ℕ) (iface name : String) (args : List Arg)
      → Reach m c
      → Reach m (send m obj iface name args c).1
  pumped :
      {c c' : Connection S} (fuel : ℕ) (a : Arrival) (buf buf' : Bytes) (r : Result (Unit {0}))
      → Reach m c
      → pump m fuel a c buf ≡ some (r, c', buf')
      → Reach m c'
  synced :
      {c c' : Connection S} (fuel : ℕ) (rounds left : List Round) (buf buf' : Bytes)
      (r : Result (Unit {0}))
      → Reach m c
      → sync m fuel rounds c buf ≡ some (r, c', buf', left)
      → Reach m c'

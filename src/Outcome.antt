-- ===== src/Outcome.antt =====
-- Python exceptions that the program raises or handles, and the result of code that may raise.
-- Messages are left out, but for a remote error's: nothing in the program branches on them.
use py_wayland_auto.Base.{Bool, true, false, String, ◌≡◌, refl, ◌⊎◌, inl, inr}

-- The subclasses of `BackendError` in backends/base.py, and `BackendError` itself.
pub data BackendError : Type 0 where
  backend : BackendError
  session_not_started : BackendError
  permission_pending : BackendError
  permission_denied : BackendError
  cancelled : BackendError
  portal_unavailable : BackendError
  portal_failed : BackendError
  unsupported_character : BackendError

pub data Exn : Type 0 where
  backend_error : BackendError → Exn
  -- `ProtocolError` with its code.
  protocol_error : String → Exn
  monitor_layout_unavailable : Exn
  eis_error : Exn
  wayland_error : Exn
  -- `dbus.exceptions.DBusException` with its D-Bus name.
  dbus_error : String → Exn
  value_error : Exn
  type_error : Exn
  attribute_error : Exn
  key_error : Exn
  index_error : Exn
  overflow_error : Exn
  struct_error : Exn
  os_error : Exn
  assertion_error : Exn
  timeout_error : Exn
  connection_error : Exn
  -- `SystemExit`, which only the command line raises.
  system_exit : Exn
  -- `RemoteError` with its code and message.
  remote_error : String → String → Exn

pub data Result {ℓ} (A : Type ℓ) : Type ℓ where
  ok : A → Result A
  raised : Exn → Result A

infixl 5 ◌>>=◌ ◌>>◌
abbrev pub ◌>>=◌ {ℓ κ} : {A : Type ℓ} {B : Type κ} → Result A → (A → Result B) → Result B
ok a >>= f = f a
raised e >>= f = raised e

abbrev pub ◌>>◌ {ℓ} : {B : Type ℓ} → Result (Unit {0}) → Result B → Result B
m >> k = m >>= λ _. k

-- `if not test: raise e`
abbrev pub check : Bool → Exn → Result (Unit {0})
check true e = ok tt
check false e = raised e

-- A split on an outcome that keeps the equation.
pub Result-cases {ℓ} :
    {A : Type ℓ} (r : Result A) → ((a : A) × (r ≡ ok a)) ⊎ ((e : Exn) × (r ≡ raised e))
Result-cases (ok a) = inl (a, refl)
Result-cases (raised e) = inr (e, refl)

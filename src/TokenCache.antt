-- ===== src/TokenCache.antt =====
-- pywaylandauto/token_cache.py: the file that holds the restore token. The file system is the
-- token's file and the temporary file; a fault of the operating system at each call is a parameter.
-- The file's bytes are taken to be UTF-8, and the path to be given.
pub mod Atomic
use py_wayland_auto.Base.{
  ℕ, Bool, true, false, ◌||◌, ◌&&◌, not, List, [], ◌∷◌, Option, none, some, leb, ◌==◌,
  if◌then◌else◌, Text,
}
unfoldable pub use py_wayland_auto.Spaces.{is_space, lstrip, rstrip, strip}
use py_wayland_auto.Outcome.{Result, ok, raised, value_error, os_error}

pub record File : Type 0 where
  pub content : Text
  pub mode : ℕ

-- The token's file, a temporary file beside it, and the mode of their directory.
pub record Files : Type 0 where
  pub token : Option File
  pub temp : Option File
  pub dir_mode : ℕ

-- `token or None`
abbrev pub nonempty : Text → Option Text
nonempty [] = none
nonempty (c ∷ cs) = some (c ∷ cs)

abbrev before_feed : Text → Bool
before_feed [] = false
before_feed (c ∷ cs) = c == 10

-- `f.read()` of a file opened in text mode: a carriage return, alone or with a line feed behind it, is
-- read as a line feed. Writing in text mode changes nothing on Linux.
unfoldable pub newlines : Text → Text
newlines [] = []
newlines (c ∷ cs) =
    let rest = newlines cs in
    if c == 13 then (if before_feed cs then rest else 10 ∷ rest) else c ∷ rest

-- `load`; a file that cannot be read is one that is not there.
unfoldable pub load : Files → Option Text
unfolding newlines strip
load fs = elim fs.token [ none ↦ none | some f ↦ nonempty (strip (newlines f.content)) ]

-- The calls of `save` and `revoke` that may fail.
pub record Faults : Type 0 where
  pub makedirs : Bool
  pub chmod_dir : Bool
  pub mkstemp : Bool
  pub write : Bool
  pub chmod_temp : Bool
  pub replace : Bool
  pub close_dir : Bool
  pub unlink : Bool

abbrev pub no_faults : Faults
no_faults = record {
  makedirs = false;
  chmod_dir = false;
  mkstemp = false;
  write = false;
  chmod_temp = false;
  replace = false;
  close_dir = false;
  unlink = false;
}

abbrev pub private_mode : ℕ
private_mode = 0o600

-- The handler of `except BaseException`: the temporary file goes, if it can, and the error stays.
abbrev pub undo : Faults → Files → Result (Unit {0}) × Files
undo f fs = (raised os_error, if f.unlink then fs else record fs { temp = none })

-- From `os.fdopen` on, with the temporary file made.
unfoldable pub write_temp : Faults → Text → Files → Result (Unit {0}) × Files
write_temp f t fs =
    if f.write
    then undo f fs
    else (let written = record fs { temp = some (record { content = t; mode = private_mode }) } in
        if f.chmod_temp || f.replace
        then undo f written
        else (let replaced = record fs {
          token = some (record { content = t; mode = private_mode });
          temp = none;
        } in
            if f.close_dir then undo f replaced else (ok tt, replaced)))

-- `save` of a stripped token.
unfoldable pub save_stripped : Faults → Text → Files → Result (Unit {0}) × Files
unfolding write_temp
save_stripped f [] fs = (raised value_error, fs)
save_stripped f (c ∷ cs) fs =
    if f.makedirs || f.chmod_dir
    then (raised os_error, fs)
    else (let guarded = record fs { dir_mode = 0o700 } in
        if f.mkstemp
        then (raised os_error, guarded)
        else write_temp f (c ∷ cs)
            (record guarded { temp = some (record { content = []; mode = private_mode }) }))

unfoldable pub save : Faults → Text → Files → Result (Unit {0}) × Files
unfolding save_stripped
save f token fs = save_stripped f (strip token) fs

-- `revoke`; a missing file is no error.
unfoldable pub revoke : Faults → Files → Result (Unit {0}) × Files
revoke f fs = elim fs.token [
  | none ↦ (ok tt, fs)
  | some _ ↦ (if f.unlink then (raised os_error, fs) else (ok tt, record fs { token = none }))
]

-- ===== src/Tests/Tokens.antt =====
-- The token cache at concrete inputs.
use py_wayland_auto.Base.{◌≡◌, ◌≢◌, ◌⊎◌, refl, codes, some, none, true}
use py_wayland_auto.Outcome.{ok}
use py_wayland_auto.TokenCache.{
  Files, Faults, no_faults, strip, newlines, lstrip, rstrip, is_space, load, save, save_stripped,
  write_temp,
}
use py_wayland_auto.TokenCache.Atomic.{saved, save_atomic, load-save}

abbrev old_files : Files
old_files = record {
  token = some (record { content = codes "old"; mode = 0o600 });
  temp = none;
  dir_mode = 0o755;
}

abbrev full_disk : Faults
full_disk = record no_faults { write = true }

save_atomic_example :
    let (r, after) = save full_disk (codes "new") old_files in
    (((r ≡ ok tt) × (after.token ≡ saved (codes "new")) × (after.dir_mode ≡ 0o700))
      ⊎ ((r ≢ ok tt) × (after.token ≡ old_files.token)))
    × (after.temp ≡ none)
save_atomic_example = save_atomic full_disk (codes "new") old_files refl refl refl

load-save_example :
    load (save no_faults (codes " new\rer \n") old_files).1
    ≡ some (newlines (strip (codes " new\rer \n")))
unfolding save save_stripped write_temp strip lstrip rstrip is_space
load-save_example = load-save no_faults (codes " new\rer \n") old_files refl

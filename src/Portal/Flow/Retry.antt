-- ===== src/Portal/Flow/Retry.antt =====
-- `_select_devices`: how often a refused token is tried.
use py_wayland_auto.Base.{ℕ, suc, ◌+◌, ◌≤◌, ◌≡◌, List, [], ◌∷◌, Bool, some, arith, String}
use py_wayland_auto.TokenCache.{revoke}
use py_wayland_auto.Portal.World.{Call, select_devices, Env, World}
use py_wayland_auto.Portal.Select.{select, select_request, select_without_token, token_refused}

-- The SelectDevices calls, and those with a token.
unfoldable pub selects : List Call → ℕ
selects [] = 0
selects (select_devices p t h ∷ log) = suc (selects log)
selects (c ∷ log) = selects log

unfoldable pub token_selects : List Call → ℕ
token_selects [] = 0
token_selects (select_devices p (some t) h ∷ log) = suc (token_selects log)
token_selects (c ∷ log) = token_selects log

module _ (env : Env) where
  without_token-selects :
      (w : World)
      → (selects (select_without_token env w).1.log ≤ 1 + selects w.log)
        × (token_selects (select_without_token env w).1.log ≡ token_selects w.log)
  unfolding select_without_token select_request selects token_selects
  without_token-selects w = ground arith

  token_refused-selects :
      (name : String) (w : World)
      → (selects (token_refused env name w).1.log ≤ 1 + selects w.log)
        × (token_selects (token_refused env name w).1.log ≡ token_selects w.log)
  unfolding token_refused select_without_token select_request selects token_selects revoke
  token_refused-selects name w = ground arith

  -- However the portal answers, choosing the devices calls SelectDevices at most twice, and at most
  -- once with a token.
  pub select-bounded :
      (use_token : Bool) (w : World)
      → (selects (select env use_token w).1.log ≤ 2 + selects w.log)
        × (token_selects (select env use_token w).1.log ≤ 1 + token_selects w.log)
  unfolding select token_refused select_without_token select_request selects token_selects revoke
  select-bounded use_token w = ground arith

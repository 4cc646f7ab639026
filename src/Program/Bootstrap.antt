-- ===== src/Program/Bootstrap.antt =====
-- Bootstrap of internal/control/supervisor.go, after New, for a configuration that Load has returned.
use go_multi_warp.Prelude.{◌≡◌, ◌≢◌, refl, ◌⊎◌, inl, inr, Bool, false, Bytes, if◌then◌else◌}
use go_multi_warp.Config.{Config, RunMode, managed, attach, other_mode}
use go_multi_warp.Config.Load.{System, returned, load}
use go_multi_warp.Config.Accepted.{load-IsAccepted}
use go_multi_warp.Program.{is_managed}

-- It returns nil, with StartAll started in the managed mode, or an error.
data Bootstrapped : Type 0 where
  attached starting not_on_windows : Bootstrapped

unfoldable bootstrap : Bool → Config → Bootstrapped
bootstrap on_windows c =
    if is_managed c.mode then (if on_windows then not_on_windows else starting) else attached

by_mode :
    (on_windows : Bool) (m : RunMode)
    → ((m ≢ managed) ⊎ (on_windows ≡ false))
    → (if is_managed m then (if on_windows then not_on_windows else starting) else attached)
      ≡ (if is_managed m then starting else attached)
by_mode on_windows managed (inl n) = absurd (n refl)
by_mode on_windows managed (inr e) = rw (e, if◌then◌else◌) refl
by_mode on_windows attach h = refl
by_mode on_windows (other_mode x) h = refl

-- With a configuration that Load has returned Bootstrap gives no error: Validate has refused the managed
-- mode on Windows, so that StartAll is started exactly in the managed mode.
bootstrap-load :
    (sys : System) (path : Bytes) (c : Config)
    → load sys path ≡ returned c
    → bootstrap sys.windows c ≡ (if is_managed c.mode then starting else attached)
unfolding bootstrap
bootstrap-load sys path c h = by_mode sys.windows c.mode (load-IsAccepted sys path c h).platform

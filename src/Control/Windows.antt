-- ===== src/Control/Windows.antt =====
-- internal/control/warpctl_windows.go: the controller that is built on Windows, and the supervisor's tick
-- with it. `none` is a nil error.
use go_multi_warp.Prelude.{
  ℕ, ℤ, ◌≡◌, refl, ◌∙◌, Bool, true, false, List, [], ◌∷◌, Option, none, some, Bytes, codes, arith,
}
use go_multi_warp.Config.{Control}
use go_multi_warp.Pool.Backend.{Snapshot}
use go_multi_warp.Pool.Registry.{Pool}
use go_multi_warp.Control.Supervisor.{supervise, supervise_all, tick}

abbrev linux_only : Option Bytes
linux_only = some (codes "managed mode warp-svc spawn is Linux-only")

unfoldable start_all : Option Bytes
start_all = none

unfoldable stop_all : Option Bytes
stop_all = none

unfoldable start_one : ℤ → Option Bytes
start_one id = linux_only

unfoldable reconnect : ℤ → Option Bytes
reconnect id = linux_only

unfoldable restart : ℤ → Option Bytes
restart id = linux_only

unfoldable reregister : ℤ → Option Bytes
reregister id = linux_only

abbrev is_nil : Option Bytes → Bool
is_nil none = true
is_nil (some e) = false

supervise_failing :
    (c : Control) (now : ℕ) (s : Snapshot) (p : Pool)
    → (supervise c (λ id. is_nil (restart id)) now s p).0 ≡ p
unfolding supervise restart
supervise_failing c now s p = ground arith

supervise_all_failing :
    (c : Control) (now : ℕ) (ss : List Snapshot) (p : Pool)
    → (supervise_all c (λ id. is_nil (restart id)) now ss p).0 ≡ p
unfolding supervise_all
supervise_all_failing c now [] p = refl
supervise_all_failing c now (s ∷ ss) p =
    supervise_all_failing c now ss (supervise c (λ id. is_nil (restart id)) now s p).0
    ∙ supervise_failing c now s p

-- With the controller of Windows a tick of the supervisor leaves the pool as it is, whatever it calls.
tick-restart :
    (c : Control) (now : ℕ) (p : Pool) → (tick c true (λ id. is_nil (restart id)) now p).0 ≡ p
unfolding tick
tick-restart c now p = supervise_all_failing c now _ p

-- ===== src/Examples/Supervision.antt =====
-- Ticks of internal/control.
use go_multi_warp.Prelude.{pos, ◌≡◌, refl, true, [], ◌∷◌}
use go_multi_warp.Config.{Config, Control, Uniqueness, default_config}
use go_multi_warp.Control.Supervisor.{tick, restarted, overdue, restarted-tick}
use go_multi_warp.Examples.Pools.{small_pool}

abbrev pub defaults : Config
defaults = default_config [] []

-- Two failures in a row are enough here.
abbrev eager : Control
eager = record defaults.control { hard_restart_fails = pos 2 }

abbrev unique_settings : Uniqueness
unique_settings = record defaults.uniqueness { retry_backoff = pos 8000000000 }

overdue_run : overdue eager.hard_restart_fails small_pool.backends ≡ pos 0 ∷ []
unfolding overdue
overdue_run = refl

restarted-tick_example :
    (restarted (tick eager true (λ id. true) 40 small_pool).1
      ≡ overdue eager.hard_restart_fails small_pool.backends)
    × (restarted (tick eager true (λ id. true) 50 (tick eager true (λ id. true) 40 small_pool).0).1
        ≡ overdue eager.hard_restart_fails small_pool.backends)
restarted-tick_example = restarted-tick eager (λ id. true) (λ id. true) 40 50 small_pool

-- ===== src/Examples/Controllers.antt =====
-- The controller of internal/control/warpctl_linux.go with an instance that takes no license.
use go_multi_warp.Prelude.{
  ◌+◌, ◌*◌, pos, pos_part, ◌≡◌, refl, true, false, [], ◌∷◌, Option, some, none, Bytes, codes, arith,
}
use go_multi_warp.Std.{cut_prefix}
use go_multi_warp.Config.{Config, default_config, license_key_for}
use go_multi_warp.Control.Warp.{
  Command, registration_license, Machine, Host, wcli, register, apply_license, set_proxy,
  reregister, configure_proxy_mode, restart, is_ready, contains,
}
use go_multi_warp.Control.Warp.Waiting.{EndsBy}
use go_multi_warp.Control.Warp.Restarts.{restart-EndsBy}
use go_multi_warp.Control.Warp.Licenses.{reregister-configure_proxy_mode}
use go_multi_warp.Control.Warp.Fleet.{start_all, Tries, start_all-Tries}
use go_multi_warp.Examples.Supervision.{defaults}

abbrev answer : Command → Option Bytes
answer (registration_license key) = none
answer _ = some []

abbrev host : Host
host = record {
  answers = λ m c. answer c;
  registered = λ m c. true;
  takes = λ m c. 1000;
  spawns = λ m. true;
}

abbrev machine : Machine
machine = record { reg_file = true; key_file = none; mdm = none; calls = []; clock = 0 }

restart-EndsBy_example :
    EndsBy
      (0 + pos_part defaults.control.warp_conn_timeout + 483700000000 + 20 * 1000)
      (restart host defaults false (pos 1) machine)
restart-EndsBy_example =
    restart-EndsBy host 1000 (λ m c. omega arith) defaults false (pos 1) machine

abbrev licensed : Config
licensed = record defaults {
  control = record defaults.control { license_keys = codes "ab-cd" ∷ [] };
}

-- A warp-cli that takes every license.
abbrev willing : Host
willing = record host { answers = λ m c. some [] }

reregister-configure_proxy_mode_example :
    configure_proxy_mode willing licensed false
      (pos 1)
      (pos 40001)
      (reregister host licensed (pos 1) machine).0
    ≡ set_proxy willing (pos 40001) (reregister host licensed (pos 1) machine).0
reregister-configure_proxy_mode_example =
    reregister-configure_proxy_mode host willing licensed (pos 1) (pos 40001) machine refl
      (unfold default_config in refl)
      (unfold reregister register apply_license set_proxy wcli default_config license_key_for in
        refl)

is_ready_run : is_ready (some (codes "Status update: Connected")) ≡ true
unfolding contains cut_prefix
is_ready_run = refl

is_ready_not_run : is_ready (some (codes "Unable to reach the daemon")) ≡ false
unfolding contains cut_prefix
is_ready_not_run = refl

start_all-Tries_example :
    Tries host defaults false
      (λ id. machine)
      (pos_part defaults.instances)
      0
      7
      (7
        + pos_part defaults.instances
          * (pos_part defaults.control.warp_conn_timeout
              + pos_part defaults.control.start_stagger
              + 483200000000
              + 19 * 1000))
      (start_all host defaults false (λ id. machine) 7)
start_all-Tries_example =
    start_all-Tries host 1000 (λ m c. omega arith) defaults false (λ id. machine) 7

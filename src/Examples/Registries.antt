-- ===== src/Examples/Registries.antt =====
-- Pools of internal/pool/pool.go as New makes them, and their admissions.
use go_multi_warp.Prelude.{pos, ◌≡◌, refl, Bool, true, [], ◌∷◌, some, Bytes, codes}
use go_multi_warp.Config.{Config, default_config, backend_addrs}
use go_multi_warp.Pool.Registry.{index_of, add_all, new_pool, get, ip_owner, in_pool_ipv4_set}
use go_multi_warp.Pool.Registry.Admission.{SetAnswers, in_pool_ipv4_set-SetAnswers}
use go_multi_warp.Examples.Pools.{small_pool}

abbrev pub two_given : Config
two_given =
    let c = default_config [] [] in
    record c {
      backends =
          record { id = pos 7; addr = codes "a:1" }
          ∷ record { id = pos 9; addr = codes "b:2" }
          ∷ [];
    }

abbrev pub always : Bytes → Bool
always s = true

get_second : get (pos 9) (new_pool always 5 two_given) ≡ some 1
unfolding get new_pool add_all backend_addrs index_of default_config
get_second = refl

in_pool_ipv4_set-SetAnswers_example :
    SetAnswers
      (codes "1.2.3.4")
      small_pool.backends
      (ip_owner (codes "1.2.3.4") (in_pool_ipv4_set small_pool))
in_pool_ipv4_set-SetAnswers_example = in_pool_ipv4_set-SetAnswers (codes "1.2.3.4") small_pool refl

-- ===== src/Examples/Passes.antt =====
-- The uniqueness engine of internal/control/uniqueness.go on two backends with the same address.
use go_multi_warp.Prelude.{
  ◌+◌, ◌≤◌, pos, refl, Bool, true, false, [], ◌∷◌, Option, some, none, Bytes, codes, is_empty, ap,
  sym,
}
use go_multi_warp.Config.{unique_effort_active, default_config}
use go_multi_warp.Pool.Backend.{Backend, healthy, warming}
use go_multi_warp.Pool.Registry.{Pool, index_of, admit_stats}
use go_multi_warp.Control.Uniqueness.{Engine, Settings, World, new_engine}
use go_multi_warp.Control.Uniqueness.Recheck.{recheck_in_pool}
use go_multi_warp.Control.Uniqueness.Passes.{tick_all, tick_all-Apart}
use go_multi_warp.Control.Uniqueness.Addresses.{Apart}
use go_multi_warp.Control.Uniqueness.Capacity.{recheck_in_pool-in_pool}
use go_multi_warp.Examples.Backends.{sample}
use go_multi_warp.Examples.Pools.{small_pool}
use go_multi_warp.Examples.Supervision.{defaults}

abbrev pub strict_settings : Settings
strict_settings = record {
  config = record defaults {
    instances = pos 2;
    uniqueness = record defaults.uniqueness {
      enabled = true;
      max_instances = pos 20;
      strict = true;
    };
  };
  managed = true;
}

-- Every backend answers with the same address.
abbrev pub world : World
world = record {
  cancelled = λ i. false;
  probe = λ i. some (codes "1.1.1.1");
  started = λ i. 100;
  finished = λ i. 101;
  reregister = λ id. true;
  collider_started = λ id. 100;
  collider_finished = λ id. 101;
}

abbrev settled : Backend
settled = record sample { state = healthy; egress_ipv4 = codes "1.1.1.1" }

abbrev newcomer : Backend
newcomer = record settled { id = pos 1; admit = warming; egress_ipv4 = [] }

abbrev pub engine : Engine
engine = record (new_engine (record small_pool { backends = settled ∷ newcomer ∷ [] })) {
  first_ok = true;
}

or_empty : Option Bytes → Bool
or_empty none = true
or_empty (some ip) = is_empty ip

-- Two backends that wait for their admission.
abbrev fresh : Pool
fresh = record small_pool {
  backends = record settled { admit = warming; egress_ipv4 = [] } ∷ newcomer ∷ [];
}

tick_all-Apart_example :
    Apart
      (tick_all strict_settings ((world, 100) ∷ (world, 200) ∷ []) (new_engine fresh)).pool.backends
unfolding or_empty unique_effort_active default_config index_of
tick_all-Apart_example =
    tick_all-Apart strict_settings ((world, 100) ∷ (world, 200) ∷ []) fresh refl refl
      ((λ i ip q. sym (ap or_empty q)), ((λ i ip q. sym (ap or_empty q)), tt)) (refl, (refl, tt))
      (refl, (refl, tt))

recheck_in_pool-in_pool_example :
    (admit_stats engine.pool).in_pool
    ≤ (admit_stats (recheck_in_pool strict_settings world 100 engine).pool).in_pool + 1
recheck_in_pool-in_pool_example = recheck_in_pool-in_pool strict_settings world 100 engine

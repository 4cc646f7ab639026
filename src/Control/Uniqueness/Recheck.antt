-- ===== src/Control/Uniqueness/Recheck.antt =====
-- internal/control/uniqueness.go: recheckInPool, the second pass of the engine, over admitted backends.
use go_multi_warp.Prelude.{
  ℕ, suc, ℤ, pos, sub_ℕ, ltb_ℤ, leb_ℤ, ltb, inc_u64, Bool, true, false, not, ◌&&◌, ◌||◌, List, [],
  ◌∷◌, ◌++◌, Option, none, some, Bytes, length, get_elem?, if◌then◌else◌,
}
use go_multi_warp.Config.{unique_effort_active}
use go_multi_warp.Pool.Backend.{Backend, State, healthy, degraded, is_in_pool}
use go_multi_warp.Pool.Registry.{admit, ip_owner, AdmitStats, admit_stats}
use go_multi_warp.Control.Backoff.{stagger, recheck_every, recheck_max, attempt_backoff}
use go_multi_warp.Control.Uniqueness.{
  Engine, Settings, World, at_key, sorted_places, is_before, is_owner_other, try_reregister,
  retry_after,
}

-- The first loop: the first owner of each address that has answered, and the other owners in order.
pub record Scan : Type 0 where
  pub engine : Engine
  pub seen : List (Bytes × ℤ)
  pub colliders : List ℤ
  pub cancelled : Bool

abbrev pub is_serving : State → Bool
is_serving healthy = true
is_serving degraded = true
is_serving _ = false

abbrev pub scan_probed : World → ℕ → Backend → Scan → Option Bytes → Scan
scan_probed world i b c none = c
scan_probed world i b c (some ip) =
    let e = record c.engine { pool = (admit (world.started i) b.id ip c.engine.pool).0 } in
    if is_owner_other b.id (ip_owner ip c.seen)
    then record c {
      engine = record e {
        stats = record e.stats { recheck_collisions = inc_u64 e.stats.recheck_collisions };
      };
      colliders = c.colliders ++ (b.id ∷ []);
    }
    else record c { engine = e; seen = (ip, b.id) ∷ c.seen }

abbrev pub scan_one : World → ℕ → Scan → Option Backend → Scan
scan_one world i c none = c
scan_one world i c (some b) =
    if is_in_pool b.admit && is_serving b.state then scan_probed world i b c (world.probe i) else c

unfoldable pub scan_from : World → List ℕ → Scan → Scan
scan_from world [] c = c
scan_from world (i ∷ is) c =
    let rest = scan_from world is (scan_one world i c (get_elem? c.engine.pool.backends i)) in
    if world.cancelled i then record c { cancelled = true } else rest

abbrev pub or_zero : Option ℕ → ℕ
or_zero none = 0
or_zero (some n) = n

-- The loop over the colliders, with what the attempt for the first of them gives.
abbrev pub after_recheck : Settings → World → ℤ → ℕ → (Engine → Engine) → Engine × Bool → Engine
after_recheck s world id n go (e, true) =
    retry_after (world.collider_finished id) (attempt_backoff (suc n) s.config.uniqueness) id
      (record e { recheck_n = (id, suc n) ∷ e.recheck_n })
after_recheck s world id n go (e, false) =
    go (retry_after (world.collider_finished id) (stagger s.config.uniqueness) id e)

unfoldable pub recheck_colliders : Settings → World → List ℤ → Engine → Engine
unfolding at_key
recheck_colliders s world [] e = e
recheck_colliders s world (id ∷ ids) e =
    let n = or_zero (at_key id e.recheck_n) in
    let rest = recheck_colliders s world ids e in
    if leb_ℤ (recheck_max s.config.uniqueness) (pos 0)
    then e
    else if leb_ℤ (recheck_max s.config.uniqueness) (pos n)
    then rest
    else if is_before (world.collider_started id) (at_key id e.next_retry)
    then rest
    else after_recheck s world id n (recheck_colliders s world ids)
        (try_reregister s world (world.collider_started id) id e)

-- uniqueIPs of AdmitStats.
abbrev pub unique_ips : AdmitStats → ℕ
unique_ips a = length a.ips

-- min(e.cfg.Instances, len(e.pool.Backends())) <= inPool
abbrev pub is_filled : ℤ → ℕ → ℕ → Bool
is_filled instances backends in_pool =
    leb_ℤ (if ltb_ℤ instances (pos backends) then instances else pos backends) (pos in_pool)

unfoldable pub observe_ceiling : Settings → Engine → Engine
observe_ceiling s e =
    let a = admit_stats e.pool in
    if (ltb 0 a.in_pool && ltb 0 (unique_ips a))
      && (is_filled s.config.instances (length e.pool.backends) a.in_pool
          && ltb (unique_ips a) a.in_pool)
    then record e { stats = record e.stats { ceiling_hit = inc_u64 e.stats.ceiling_hit } }
    else e

abbrev pub after_scan : Settings → World → Scan → Engine
after_scan s world c =
    if c.cancelled
    then c.engine
    else observe_ceiling s (recheck_colliders s world c.colliders c.engine)

abbrev pub is_recent : ℕ → ℤ → Option ℕ → Bool
is_recent now every none = false
is_recent now every (some t) = ltb_ℤ (sub_ℕ now t) every

unfoldable pub recheck_in_pool : Settings → World → ℕ → Engine → Engine
unfolding scan_from recheck_colliders observe_ceiling
recheck_in_pool s world now e =
    if not (unique_effort_active s.config) || not s.managed
    then e
    else if leb_ℤ (recheck_every s.config.uniqueness) (pos 0)
    then e
    else if is_recent now (recheck_every s.config.uniqueness) e.last_recheck
    then e
    else after_scan s world (
        scan_from world (sorted_places e.pool.backends) (record {
          engine = record e {
            last_recheck = some now;
            stats = record e.stats { recheck_runs = inc_u64 e.stats.recheck_runs };
          };
          seen = [];
          colliders = [];
          cancelled = false;
        }))

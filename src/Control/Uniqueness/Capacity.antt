-- ===== src/Control/Uniqueness/Capacity.antt =====
-- internal/control/uniqueness.go: how many backends stay in service over a pass of recheckInPool.
use go_multi_warp.Prelude.{
  ℕ, zero, suc, ◌+◌, ◌≤◌, inc_u64, ℤ, ◌≡◌, Bool, true, false, List, [], ◌∷◌, Option, none, some,
  Bytes, arith, get_elem?,
}
use go_multi_warp.Pool.Backend.{
  Backend, State, unknown, AdmitPhase, in_pool, warming, parked, set_admit, force_state,
}
use go_multi_warp.Pool.Registry.{
  Pool, get, modify, update, with_place, admit, set_warming, pool_force_state, AdmitStats,
  count_phase, count_backends, admit_stats,
}
use go_multi_warp.Control.Backoff.{stagger}
use go_multi_warp.Control.Uniqueness.{
  Engine, Settings, World, at_key, sorted_places, try_reregister, retry_after,
}
use go_multi_warp.Control.Uniqueness.Recheck.{
  Scan, or_zero, scan_probed, scan_one, scan_from, recheck_colliders, after_recheck,
  observe_ceiling, after_scan, recheck_in_pool,
}

-- 1 for a backend that is in service.
abbrev pub in_service : AdmitPhase → ℕ
in_service in_pool = 1
in_service warming = 0
in_service parked = 0

unfoldable pub serving : List Backend → ℕ
serving [] = 0
serving (b ∷ bs) = in_service b.admit + serving bs

count_backends-serving :
    (bs : List Backend) (s : AdmitStats) → (count_backends bs s).in_pool ≡ s.in_pool + serving bs
unfolding count_backends serving
count_backends-serving [] s = omega arith
count_backends-serving (b ∷ bs) s =
    step b.admit (count_backends-serving bs (count_phase b.admit b.egress_ipv4 s))
  where
    step :
        (a : AdmitPhase)
        → (count_backends bs (count_phase a b.egress_ipv4 s)).in_pool
          ≡ (count_phase a b.egress_ipv4 s).in_pool + serving bs
        → (count_backends bs (count_phase a b.egress_ipv4 s)).in_pool
          ≡ s.in_pool + (in_service a + serving bs)
    step in_pool e = omega arith
    step warming e = omega arith
    step parked e = omega arith

pub admit_stats-serving : (p : Pool) → (admit_stats p).in_pool ≡ serving p.backends
unfolding admit_stats
admit_stats-serving p =
    let e =
      count_backends-serving p.backends
        (record { in_pool = 0; warming = 0; parked = 0; ips = [] }) in
    omega arith

in_service_le : (a : AdmitPhase) → in_service a ≤ 1
in_service_le in_pool = omega arith
in_service_le warming = omega arith
in_service_le parked = omega arith

-- A change of one backend takes at most `n` of the pool out of service, if it takes at most `n` of it.
modify-serving :
    (n i : ℕ) (f : Backend → Backend) (bs : List Backend)
    → ((b : Backend) → in_service b.admit ≤ in_service (f b).admit + n)
    → serving bs ≤ serving (modify i f bs) + n
unfolding serving modify
modify-serving n i f [] h = omega arith
modify-serving n zero f (b ∷ bs) h = let k = h b in omega arith
modify-serving n (suc i) f (b ∷ bs) h = let k = modify-serving n i f bs h in omega arith

admit-serving :
    (now : ℕ) (id : ℤ) (ip : Bytes) (p : Pool)
    → serving p.backends ≤ serving (admit now id ip p).0.backends
unfolding admit set_admit
admit-serving now id ip p = step (get id p)
  where
    step :
        (o : Option ℕ)
        → serving p.backends
          ≤ serving
              (with_place {A = Pool × Bool} o
                (p, false)
                (λ i. (update i (set_admit now in_pool ip) p, true))).0.backends
    step none = omega arith
    step (some i) =
        let k =
          modify-serving 0 i (set_admit now in_pool ip) p.backends (λ b. in_service_le b.admit) in
        omega arith

set_warming-serving :
    (now : ℕ) (id : ℤ) (p : Pool)
    → serving p.backends ≤ serving (set_warming now id p).0.backends + 1
unfolding set_warming set_admit
set_warming-serving now id p = step (get id p)
  where
    step :
        (o : Option ℕ)
        → serving p.backends
          ≤ serving
              (with_place {A = Pool × Bool} o
                (p, false)
                (λ i. (update i (set_admit now warming []) p, true))).0.backends
            + 1
    step none = omega arith
    step (some i) =
        modify-serving 1 i (set_admit now warming []) p.backends (λ b. in_service_le b.admit)

force_state-serving :
    (now : ℕ) (id : ℤ) (s : State) (p : Pool)
    → serving p.backends ≤ serving (pool_force_state now id s p).backends
unfolding pool_force_state force_state
force_state-serving now id s p = step (get id p)
  where
    keeps : (b : Backend) → in_service b.admit ≤ in_service (force_state now s b).admit + 0
    keeps b = ground arith

    step :
        (o : Option ℕ)
        → serving p.backends
          ≤ serving (with_place o p (λ i. update i (force_state now s) p)).backends
    step none = omega arith
    step (some i) = let k = modify-serving 0 i (force_state now s) p.backends keeps in omega arith

-- What an attempt leaves in service: all when it is put off, and else all but one.
abbrev Tried : Engine → Engine × Bool → Type 0
Tried e (d, true) = serving e.pool.backends ≤ serving d.pool.backends + 1
Tried e (d, false) = serving e.pool.backends ≤ serving d.pool.backends

try_reregister-Tried :
    (s : Settings) (world : World) (now : ℕ) (id : ℤ) (e : Engine)
    → Tried e (try_reregister s world now id e)
unfolding try_reregister
try_reregister-Tried s world now id e =
    let one = force_state-serving now id unknown e.pool in
    let two = set_warming-serving now id (pool_force_state now id unknown e.pool) in ground arith

after_recheck-serving :
    (s : Settings) (world : World) (id : ℤ) (n : ℕ) (go : Engine → Engine) (e : Engine)
    (t : Engine × Bool)
    → Tried e t
    → ((d : Engine) → serving d.pool.backends ≤ serving (go d).pool.backends + 1)
    → serving e.pool.backends ≤ serving (after_recheck s world id n go t).pool.backends + 1
after_recheck-serving s world id n go e (d, true) t h = t
after_recheck-serving s world id n go e (d, false) t h =
    let k = h (retry_after (world.collider_finished id) (stagger s.config.uniqueness) id d) in
    omega arith

recheck_colliders-serving :
    (s : Settings) (world : World) (ids : List ℤ) (e : Engine)
    → serving e.pool.backends ≤ serving (recheck_colliders s world ids e).pool.backends + 1
unfolding recheck_colliders
recheck_colliders-serving s world [] e = omega arith
recheck_colliders-serving s world (id ∷ ids) e =
    let rest = recheck_colliders-serving s world ids e in
    let first =
      after_recheck-serving s world id (or_zero (at_key id e.recheck_n))
        (recheck_colliders s world ids) e (try_reregister s world (world.collider_started id) id e)
        (try_reregister-Tried s world (world.collider_started id) id e)
        (recheck_colliders-serving s world ids) in
    ground arith

scan_one-serving :
    (world : World) (i : ℕ) (c : Scan) (o : Option Backend)
    → serving c.engine.pool.backends ≤ serving (scan_one world i c o).engine.pool.backends
scan_one-serving world i c none = omega arith
scan_one-serving world i c (some b) = let k = step (world.probe i) in ground arith
  where
    step :
        (o : Option Bytes)
        → serving c.engine.pool.backends ≤ serving (scan_probed world i b c o).engine.pool.backends
    step none = omega arith
    step (some ip) = let k = admit-serving (world.started i) b.id ip c.engine.pool in ground arith

scan_from-serving :
    (world : World) (is : List ℕ) (c : Scan)
    → serving c.engine.pool.backends ≤ serving (scan_from world is c).engine.pool.backends
unfolding scan_from
scan_from-serving world [] c = omega arith
scan_from-serving world (i ∷ is) c =
    let one = scan_one-serving world i c (get_elem? c.engine.pool.backends i) in
    let rest =
      scan_from-serving world is (scan_one world i c (get_elem? c.engine.pool.backends i)) in
    ground arith

observe_ceiling-serving :
    (s : Settings) (e : Engine)
    → serving e.pool.backends ≤ serving (observe_ceiling s e).pool.backends
unfolding observe_ceiling
observe_ceiling-serving s e = ground arith

after_scan-serving :
    (s : Settings) (world : World) (c : Scan)
    → serving c.engine.pool.backends ≤ serving (after_scan s world c).pool.backends + 1
after_scan-serving s world c =
    let one = recheck_colliders-serving s world c.colliders c.engine in
    let two = observe_ceiling-serving s (recheck_colliders s world c.colliders c.engine) in
    ground arith

-- A pass of recheckInPool, whatever the probes and the controller answer and wherever it is cancelled,
-- takes at most one backend out of service.
pub recheck_in_pool-in_pool :
    (s : Settings) (world : World) (now : ℕ) (e : Engine)
    → (admit_stats e.pool).in_pool ≤ (admit_stats (recheck_in_pool s world now e).pool).in_pool + 1
unfolding recheck_in_pool
recheck_in_pool-in_pool s world now e =
    let before = admit_stats-serving e.pool in
    let after = admit_stats-serving (recheck_in_pool s world now e).pool in
    let start : Scan = record {
      engine = record e {
        last_recheck = some now;
        stats = record e.stats { recheck_runs = inc_u64 e.stats.recheck_runs };
      };
      seen = [];
      colliders = [];
      cancelled = false;
    } in
    let scan = scan_from-serving world (sorted_places e.pool.backends) start in
    let last = after_scan-serving s world (scan_from world (sorted_places e.pool.backends) start) in
    ground arith

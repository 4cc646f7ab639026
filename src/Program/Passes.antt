-- ===== src/Program/Passes.antt =====
-- What the passes of the uniqueness engine keep of the pool.
use go_multi_warp.Prelude.{
  ℕ, suc, ℤ, ◌≡◌, refl, Bool, true, false, List, [], ◌∷◌, Option, none, some, Bytes, get_elem?,
  inc_u64, arith,
}
use go_multi_warp.Pool.Backend.{Backend, unknown, inc_unique_attempt}
use go_multi_warp.Pool.Registry.{update, pool_force_state}
use go_multi_warp.Control.Uniqueness.{
  Engine, Settings, World, at_key, sorted_places, try_reregister, after_attempt, park_or_admit,
  collided, decide, decide_probed, visit, tick_from, tick,
}
use go_multi_warp.Control.Uniqueness.Recheck.{
  Scan, or_zero, scan_probed, scan_one, scan_from, recheck_colliders, after_recheck,
  observe_ceiling, after_scan, recheck_in_pool,
}
use go_multi_warp.Program.Kept.{
  view, view-admit, view-park, view-set_warming, view-force_state, view-attempt,
}

view-try_reregister :
    (s : Settings) (world : World) (now : ℕ) (id : ℤ) (e : Engine)
    → view (try_reregister s world now id e).0.pool ≡ view e.pool
unfolding try_reregister
view-try_reregister s world now id e = ground (
  arith,
  view-force_state now id unknown e.pool,
  view-set_warming now id (pool_force_state now id unknown e.pool),
)

view-park_or_admit :
    (s : Settings) (now : ℕ) (id : ℤ) (ip : Bytes) (e : Engine)
    → view (park_or_admit s now id ip e).pool ≡ view e.pool
view-park_or_admit s now id ip e =
    ground (arith, view-park now id ip e.pool, view-admit now id ip e.pool)

view-after_attempt :
    (s : Settings) (now tries : ℕ) (id : ℤ) (a : Engine × Bool)
    → view (after_attempt s now tries id a).pool ≡ view a.0.pool
view-after_attempt s now tries id (e, true) = refl
view-after_attempt s now tries id (e, false) = refl

view-collided :
    (s : Settings) (world : World) (i : ℕ) (id : ℤ) (ip : Bytes) (tries : ℕ) (e : Engine)
    → view (collided s world i id ip tries e).pool ≡ view e.pool
view-collided s world i id ip tries e = ground (
  arith,
  view-park_or_admit s (world.started i) id ip e,
  view-park_or_admit s (world.started i) id ip
      (record e { stats = record e.stats { ceiling_hit = inc_u64 e.stats.ceiling_hit } }),
  view-after_attempt s (world.finished i) tries id (try_reregister s world (world.started i) id e),
  view-try_reregister s world (world.started i) id e,
)

view-decide :
    (s : Settings) (world : World) (i : ℕ) (b : Backend) (ip : Bytes) (e : Engine)
    → view (decide s world i b ip e).pool ≡ view e.pool
unfolding decide
view-decide s world i b ip e = ground (
  arith,
  view-admit (world.started i) b.id ip e.pool,
  view-attempt i e.pool,
  view-collided s world i b.id ip (suc b.unique_tries) (record e {
    pool = update i (λ d. (inc_unique_attempt d).0) e.pool;
    stats = record e.stats { collisions = inc_u64 e.stats.collisions };
  }),
)

view-decide_probed :
    (s : Settings) (world : World) (i : ℕ) (b : Backend) (e : Engine) (o : Option Bytes)
    → view (decide_probed s world i b e o).pool ≡ view e.pool
view-decide_probed s world i b e none = refl
view-decide_probed s world i b e (some ip) = view-decide s world i b ip e

view-visit :
    (s : Settings) (world : World) (now i : ℕ) (e : Engine) (o : Option Backend)
    → view (visit s world now i e o).pool ≡ view e.pool
view-visit s world now i e none = refl
view-visit s world now i e (some b) =
    ground (arith, view-decide_probed s world i b e (world.probe i))

view-tick_from :
    (s : Settings) (world : World) (now : ℕ) (is : List ℕ) (e : Engine)
    → view (tick_from s world now is e).pool ≡ view e.pool
unfolding tick_from
view-tick_from s world now [] e = refl
view-tick_from s world now (i ∷ is) e =
    let next = visit s world now i e (get_elem? e.pool.backends i) in
    let first = view-visit s world now i e (get_elem? e.pool.backends i) in
    let rest = view-tick_from s world now is next in ground arith

pub view-tick :
    (s : Settings) (world : World) (now : ℕ) (e : Engine)
    → view (tick s world now e).pool ≡ view e.pool
unfolding tick
view-tick s world now e = view-tick_from s world now (sorted_places e.pool.backends) e

view-scan_probed :
    (world : World) (i : ℕ) (b : Backend) (c : Scan) (o : Option Bytes)
    → view (scan_probed world i b c o).engine.pool ≡ view c.engine.pool
view-scan_probed world i b c none = refl
view-scan_probed world i b c (some ip) =
    ground (arith, view-admit (world.started i) b.id ip c.engine.pool)

view-scan_one :
    (world : World) (i : ℕ) (c : Scan) (o : Option Backend)
    → view (scan_one world i c o).engine.pool ≡ view c.engine.pool
view-scan_one world i c none = refl
view-scan_one world i c (some b) = ground (arith, view-scan_probed world i b c (world.probe i))

view-scan_from :
    (world : World) (is : List ℕ) (c : Scan)
    → view (scan_from world is c).engine.pool ≡ view c.engine.pool
unfolding scan_from
view-scan_from world [] c = refl
view-scan_from world (i ∷ is) c =
    let first = view-scan_one world i c (get_elem? c.engine.pool.backends i) in
    let rest = view-scan_from world is (scan_one world i c (get_elem? c.engine.pool.backends i)) in
    ground arith

view-after_recheck :
    (s : Settings) (world : World) (id : ℤ) (n : ℕ) (go : Engine → Engine) (a : Engine × Bool)
    → ((e : Engine) → view (go e).pool ≡ view e.pool)
    → view (after_recheck s world id n go a).pool ≡ view a.0.pool
view-after_recheck s world id n go (e, true) h = refl
view-after_recheck s world id n go (e, false) h = h _

view-recheck_colliders :
    (s : Settings) (world : World) (ids : List ℤ) (e : Engine)
    → view (recheck_colliders s world ids e).pool ≡ view e.pool
unfolding recheck_colliders
view-recheck_colliders s world [] e = refl
view-recheck_colliders s world (id ∷ ids) e =
    let rest = view-recheck_colliders s world ids in
    let tried = view-try_reregister s world (world.collider_started id) id e in
    let n = or_zero (at_key id e.recheck_n) in
    let after =
      view-after_recheck s world id n (recheck_colliders s world ids)
        (try_reregister s world (world.collider_started id) id e) rest in
    ground (arith, rest e)

view-observe_ceiling : (s : Settings) (e : Engine) → view (observe_ceiling s e).pool ≡ view e.pool
unfolding observe_ceiling
view-observe_ceiling s e = ground arith

view-after_scan :
    (s : Settings) (world : World) (c : Scan)
    → view (after_scan s world c).pool ≡ view c.engine.pool
view-after_scan s world c = ground (
  arith,
  view-observe_ceiling s (recheck_colliders s world c.colliders c.engine),
  view-recheck_colliders s world c.colliders c.engine,
)

pub view-recheck_in_pool :
    (s : Settings) (world : World) (now : ℕ) (e : Engine)
    → view (recheck_in_pool s world now e).pool ≡ view e.pool
unfolding recheck_in_pool
view-recheck_in_pool s world now e =
    let start : Scan = record {
      engine = record e {
        last_recheck = some now;
        stats = record e.stats { recheck_runs = inc_u64 e.stats.recheck_runs };
      };
      seen = [];
      colliders = [];
      cancelled = false;
    } in
    let scan = view-scan_from world (sorted_places e.pool.backends) start in
    let last = view-after_scan s world (scan_from world (sorted_places e.pool.backends) start) in
    ground arith

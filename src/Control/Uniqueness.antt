-- ===== src/Control/Uniqueness.antt =====
-- internal/control/uniqueness.go: tick, tryReregister and recheckInPool of the uniqueness engine. What
-- the probes and the controller answer, and the readings of the clock, are the parameter `world`: by the
-- place of the backend, or by the id for a collider. The mutex makes each pass run alone.
pub mod Recheck
pub mod Addresses
pub mod Strict
pub mod Passes
pub mod Capacity
pub mod Snapshot
pub mod Probe
use go_multi_warp.Prelude.{
  ℕ, zero, suc, ◌+◌, ◌-◌, ℤ, pos, negsuc, pos_part, ◌+ℤ◌, ◌-ℤ◌, sub_ℕ, ltb_ℤ, leb_ℤ, ◌==ℤ◌, leb,
  ltb, ◌==◌, inc_u64, Bool, true, false, not, ◌&&◌, ◌||◌, List, [], ◌∷◌, ◌++◌, Option, none, some,
  Bytes, bytes_eq, length, get_elem?, if◌then◌else◌,
}
use go_multi_warp.Config.{Config, Uniqueness, unique_effort_active}
use go_multi_warp.Pool.Backend.{
  Backend, State, healthy, degraded, unknown, AdmitPhase, warming, is_in_pool, inc_unique_attempt,
}
use go_multi_warp.Pool.Registry.{
  Pool, get, update, admit, park, set_warming, pool_force_state, in_pool_ipv4_set, ip_owner,
  AdmitStats, admit_stats,
}
use go_multi_warp.Control.Backoff.{
  max_attempts, backoff_base, stagger, recheck_every, recheck_max, attempt_backoff,
}

pub record UniqueStats : Type 0 where
  pub collisions : ℕ
  pub rereg_attempts : ℕ
  pub rereg_success : ℕ
  pub rereg_fail : ℕ
  pub admitted_unique : ℕ
  pub admitted_residual : ℕ
  pub recheck_runs : ℕ
  pub recheck_collisions : ℕ
  pub ceiling_hit : ℕ

pub record Engine : Type 0 where
  pub pool : Pool
  pub first_ok : Bool
  pub reg_sem : ℕ  -- the elements in the channel
  pub last_reg_start : Option ℕ
  pub next_retry : List (ℤ × ℤ)
  pub recheck_n : List (ℤ × ℕ)
  pub last_recheck : Option ℕ
  pub stats : UniqueStats

-- The engine's configuration, and if it has a controller.
pub record Settings : Type 0 where
  pub config : Config
  pub managed : Bool

pub record World : Type 0 where
  pub cancelled : ℕ → Bool  -- ctx.Err() before the round of this place
  pub probe : ℕ → Option Bytes  -- probeEgressIPv4
  pub started : ℕ → ℕ  -- the clock in the round of this place
  pub finished : ℕ → ℕ  -- and after its re-registration
  pub reregister : ℤ → Bool  -- Reregister without error
  pub collider_started : ℤ → ℕ
  pub collider_finished : ℤ → ℕ

-- The size of the channel regSem.
unfoldable pub reg_capacity : Uniqueness → ℕ
reg_capacity u = if leb_ℤ u.max_concurrent_reg (pos 0) then 2 else pos_part u.max_concurrent_reg

unfoldable pub new_engine : Pool → Engine
new_engine p = record {
  pool = p;
  first_ok = false;
  reg_sem = 0;
  last_reg_start = none;
  next_retry = [];
  recheck_n = [];
  last_recheck = none;
  stats = record {
    collisions = 0;
    rereg_attempts = 0;
    rereg_success = 0;
    rereg_fail = 0;
    admitted_unique = 0;
    admitted_residual = 0;
    recheck_runs = 0;
    recheck_collisions = 0;
    ceiling_hit = 0;
  };
}

-- The maps by id; the entry that was written last stands first.
module _ {A : Type 0} where
  unfoldable pub at_key : ℤ → List (ℤ × A) → Option A
  at_key id [] = none
  at_key id ((k, a) ∷ m) = if k ==ℤ id then some a else at_key id m

  unfoldable pub delete_key : ℤ → List (ℤ × A) → List (ℤ × A)
  delete_key id [] = []
  delete_key id ((k, a) ∷ m) =
      let rest = delete_key id m in if k ==ℤ id then rest else (k, a) ∷ rest

-- sort.SliceStable by the id, as places.
abbrev insert_place : ℤ × ℕ → List (ℤ × ℕ) → List (ℤ × ℕ)
insert_place (id, i) [] = (id, i) ∷ []
insert_place (id, i) ((k, j) ∷ xs) =
    let rest = insert_place (id, i) xs in
    if leb_ℤ id k then (id, i) ∷ (k, j) ∷ xs else (k, j) ∷ rest

unfoldable pub sorted_from : ℕ → List Backend → List (ℤ × ℕ)
sorted_from i [] = []
sorted_from i (b ∷ bs) = insert_place (b.id, i) (sorted_from (suc i) bs)

unfoldable pub sorted_places : List Backend → List ℕ
unfolding sorted_from
sorted_places bs = places_of (sorted_from 0 bs)
  where
    places_of : List (ℤ × ℕ) → List ℕ
    places_of [] = []
    places_of ((id, i) ∷ xs) = i ∷ places_of xs

-- now.Before(t), for an entry of next_retry
abbrev pub is_before : ℕ → Option ℤ → Bool
is_before now none = false
is_before now (some t) = ltb_ℤ (pos now) t

abbrev pub is_warming : AdmitPhase → Bool
is_warming warming = true
is_warming _ = false

abbrev pub is_probeable : State → Bool
is_probeable healthy = true
is_probeable degraded = true
is_probeable unknown = true
is_probeable _ = false

-- The gap to the last start of a re-registration is not over.
abbrev pub must_wait : ℕ → ℤ → Option ℕ → Bool
must_wait now gap none = false
must_wait now gap (some t) = ltb_ℤ (pos 0) gap && ltb_ℤ (pos 0) (gap -ℤ sub_ℕ now t)

-- tryReregister, at `now`. The channel gets an element and gives it back.
unfoldable pub try_reregister : Settings → World → ℕ → ℤ → Engine → Engine × Bool
try_reregister s world now id e =
    if must_wait now (stagger s.config.uniqueness) e.last_reg_start
    then (e, false)
    else if leb (reg_capacity s.config.uniqueness) e.reg_sem
    then (e, false)
    else if world.reregister id
    then (
      record e {
        last_reg_start = some now;
        pool = (set_warming now id (pool_force_state now id unknown e.pool)).0;
        stats = record e.stats {
          rereg_attempts = inc_u64 e.stats.rereg_attempts;
          rereg_success = inc_u64 e.stats.rereg_success;
        };
      },
      true,
    )
    else (
      record e {
        last_reg_start = some now;
        stats = record e.stats {
          rereg_attempts = inc_u64 e.stats.rereg_attempts;
          rereg_fail = inc_u64 e.stats.rereg_fail;
        };
      },
      true,
    )

abbrev pub count_residual : UniqueStats → UniqueStats
count_residual t = record t { admitted_residual = inc_u64 t.admitted_residual }

abbrev pub count_unique : UniqueStats → UniqueStats
count_unique t = record t { admitted_unique = inc_u64 t.admitted_unique }

-- Admission of a backend that is not unique: parked if strict, and else admitted all the same.
abbrev pub park_or_admit : Settings → ℕ → ℤ → Bytes → Engine → Engine
park_or_admit s now id ip e =
    if s.config.uniqueness.strict
    then record e { pool = (park now id ip e.pool).0 }
    else record e { pool = (admit now id ip e.pool).0; stats = count_residual e.stats }

abbrev pub retry_after : ℕ → ℤ → ℤ → Engine → Engine
retry_after now delay id e = record e { next_retry = (id, pos now +ℤ delay) ∷ e.next_retry }

abbrev pub after_attempt : Settings → ℕ → ℕ → ℤ → Engine × Bool → Engine
after_attempt s now tries id (e, true) =
    retry_after now (attempt_backoff tries s.config.uniqueness) id e
after_attempt s now tries id (e, false) = retry_after now (stagger s.config.uniqueness) id e

-- What follows a collision, at the attempt `tries`.
abbrev pub collided : Settings → World → ℕ → ℤ → Bytes → ℕ → Engine → Engine
collided s world i id ip tries e =
    if ltb_ℤ (max_attempts s.config.uniqueness) (pos tries)
    then (let done =
          park_or_admit s (world.started i) id ip
            (record e { stats = record e.stats { ceiling_hit = inc_u64 e.stats.ceiling_hit } }) in
        record done { next_retry = delete_key id done.next_retry })
    else if s.managed
    then after_attempt s (world.finished i) tries id (try_reregister s world (world.started i) id e)
    else park_or_admit s (world.started i) id ip e

abbrev pub is_owner_other : ℤ → Option ℤ → Bool
is_owner_other id none = false
is_owner_other id (some owner) = not (owner ==ℤ id)

-- A backend of tick that has answered its probe with `ip`.
unfoldable pub decide : Settings → World → ℕ → Backend → Bytes → Engine → Engine
unfolding try_reregister delete_key
decide s world i b ip e =
    if not e.first_ok
    then record e {
      pool = (admit (world.started i) b.id ip e.pool).0;
      first_ok = true;
      stats = count_unique e.stats;
    }
    else if not (unique_effort_active s.config)
    then record e {
      pool = (admit (world.started i) b.id ip e.pool).0;
      stats = count_residual e.stats;
    }
    else if is_owner_other b.id (ip_owner ip (in_pool_ipv4_set e.pool))
    then collided s world i b.id ip (suc b.unique_tries) (record e {
      pool = update i (λ d. (inc_unique_attempt d).0) e.pool;
      stats = record e.stats { collisions = inc_u64 e.stats.collisions };
    })
    else record e {
      pool = (admit (world.started i) b.id ip e.pool).0;
      stats = count_unique e.stats;
      next_retry = delete_key b.id e.next_retry;
    }

abbrev pub decide_probed : Settings → World → ℕ → Backend → Engine → Option Bytes → Engine
decide_probed s world i b e none = e
decide_probed s world i b e (some ip) = decide s world i b ip e

abbrev pub visit : Settings → World → ℕ → ℕ → Engine → Option Backend → Engine
visit s world now i e none = e
visit s world now i e (some b) =
    if is_warming b.admit && not (is_before now (at_key b.id e.next_retry)) && is_probeable b.state
    then decide_probed s world i b e (world.probe i)
    else e

-- The loop of tick, over the places that are left.
unfoldable pub tick_from : Settings → World → ℕ → List ℕ → Engine → Engine
unfolding decide at_key
tick_from s world now [] e = e
tick_from s world now (i ∷ is) e =
    let rest = tick_from s world now is (visit s world now i e (get_elem? e.pool.backends i)) in
    if world.cancelled i then e else rest

unfoldable pub tick : Settings → World → ℕ → Engine → Engine
unfolding tick_from sorted_places
tick s world now e = tick_from s world now (sorted_places e.pool.backends) e

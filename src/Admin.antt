-- ===== src/Admin.antt =====
-- internal/admin/admin.go: the handlers of the admin interface, on the pool and the limiter that the
-- proxies share. encoding/json and the multiplexer of net/http are left out: a handler gives what is
-- encoded, with the status.
pub mod Ready
pub mod Reset
pub mod Prometheus
use go_multi_warp.Prelude.{
  ℕ, ◌+◌, ℤ, pos, sub_ℕ, quot, leb, ltb, ◌==◌, ◌==ℤ◌, Bool, true, false, not, ◌&&◌, ◌||◌, List, [],
  ◌∷◌, ◌++◌, Option, none, some, Bytes, codes, length, if◌then◌else◌,
}
use go_multi_warp.Std.{atoi}
use go_multi_warp.Config.{Config, PoolStrategy, RunMode, unique_effort_active}
use go_multi_warp.Pool.Backend.{Backend, Snapshot, unknown}
use go_multi_warp.Pool.Registry.{Pool, healthy_count, snapshots, admit_stats, pool_force_state}
use go_multi_warp.Pool.Limiter.{active}
use go_multi_warp.Control.Uniqueness.Recheck.{unique_ips}
use go_multi_warp.Control.Uniqueness.Snapshot.{StatsSnapshot}
use go_multi_warp.Proxy.Auth.{drop}
use go_multi_warp.Proxy.Serve.{ProxyState}

pub record HealthResponse : Type 0 where
  pub status : Bytes
  pub healthy_backends : ℕ
  pub in_pool : ℕ
  pub warming : ℕ
  pub parked : ℕ
  pub unique_ipv4 : ℕ
  pub ceiling_hit : Bool
  pub total_backends : ℕ
  pub active_conns : ℤ
  pub uptime_sec : ℤ

-- int64(time.Since(s.Started).Seconds())
abbrev pub uptime : ℕ → ℕ → ℤ
uptime started now = quot (sub_ℕ now started) 1000000000

abbrev pub is_at_ceiling : Option StatsSnapshot → Bool
is_at_ceiling none = false
is_at_ceiling (some s) = s.ceiling_hit

abbrev pub health_status : Bool → Bytes
health_status true = codes "degraded"
health_status false = codes "ok"

-- `unique` is what s.UniqueStats gives, if it is set.
unfoldable pub healthz : ℕ → Option StatsSnapshot → ℕ → ProxyState → ProxyState × HealthResponse
healthz started unique now st =
    let (q, healthy) = healthy_count now st.pool in
    let a = admit_stats q in
    (
      record st { pool = q },
      record {
        status = health_status (healthy == 0 || a.in_pool == 0);
        healthy_backends = healthy;
        in_pool = a.in_pool;
        warming = a.warming;
        parked = a.parked;
        unique_ipv4 = unique_ips a;
        ceiling_hit =
            (ltb 0 (unique_ips a)
              && (leb (length q.backends) a.in_pool && ltb (unique_ips a) a.in_pool))
            || is_at_ceiling unique;
        total_backends = length q.backends;
        active_conns = active st.limiter;
        uptime_sec = uptime started now;
      },
    )

-- The status and the body.
abbrev pub ready_answer : Bool → ℕ × Bytes
ready_answer true = (200, codes "ready")
ready_answer false = (503, codes "no healthy backends")

unfoldable pub readyz : ℕ → ProxyState → ProxyState × (ℕ × Bytes)
readyz now st =
    let (q, healthy) = healthy_count now st.pool in
    (record st { pool = q }, ready_answer (ltb 0 healthy))

pub record MetricsResponse : Type 0 where
  pub uptime_sec : ℤ
  pub healthy_backends : ℕ
  pub in_pool : ℕ
  pub warming : ℕ
  pub parked : ℕ
  pub unique_ipv4 : ℕ
  pub total_backends : ℕ
  pub active_conns : ℤ
  pub selects : ℕ
  pub select_fail : ℕ
  pub probe_success : ℕ
  pub probe_failure : ℕ
  pub strategy : PoolStrategy
  pub mode : RunMode
  pub unique_effort : Bool
  pub unique_strict : Bool
  pub unique : Option StatsSnapshot
  pub backends : List Snapshot

unfoldable pub metrics :
    Config → ℕ → Option StatsSnapshot → ℕ → ProxyState → ProxyState × MetricsResponse
metrics c started unique now st =
    let a = admit_stats st.pool in
    let (q, healthy) = healthy_count now st.pool in
    (
      record st { pool = q },
      record {
        uptime_sec = uptime started now;
        healthy_backends = healthy;
        in_pool = a.in_pool;
        warming = a.warming;
        parked = a.parked;
        unique_ipv4 = unique_ips a;
        total_backends = length q.backends;
        active_conns = active st.limiter;
        selects = q.selects;
        select_fail = q.select_fail;
        probe_success = q.success;
        probe_failure = q.failure;
        strategy = c.pool.strategy;
        mode = c.mode;
        unique_effort = unique_effort_active c;
        unique_strict = c.uniqueness.strict;
        unique = unique;
        backends = snapshots now q;
      },
    )

unfoldable pub backends_page : ℕ → ProxyState → List Snapshot
backends_page now st = snapshots now st.pool

pub data Reconnected : Type 0 where
  not_allowed bad_id unknown_id : Reconnected
  reset_state : ℤ → Reconnected

abbrev pub status_of : Reconnected → ℕ
status_of not_allowed = 405
status_of bad_id = 400
status_of unknown_id = 404
status_of (reset_state id) = 200

unfoldable pub has_id : ℤ → List Backend → Bool
has_id id [] = false
has_id id (b ∷ bs) = let rest = has_id id bs in if b.id ==ℤ id then true else rest

abbrev pub reconnect_path : Bytes
reconnect_path = codes "/v1/reconnect/"

abbrev pub reconnect_id : ℕ → Option ℤ → ProxyState → ProxyState × Reconnected
reconnect_id now none st = (st, bad_id)
reconnect_id now (some id) st =
    if not (has_id id st.pool.backends)
    then (st, unknown_id)
    else (record st { pool = pool_force_state now id unknown st.pool }, reset_state id)

-- `is_post` is r.Method == http.MethodPost.
unfoldable pub reconnect : Bool → Bytes → ℕ → ProxyState → ProxyState × Reconnected
unfolding has_id
reconnect is_post path now st =
    if not is_post
    then (st, not_allowed)
    else reconnect_id now (atoi (drop (length reconnect_path) path)) st

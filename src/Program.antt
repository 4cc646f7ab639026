-- ===== src/Program.antt =====
-- main.go, with New of supervisor.go, Run of uniqueness.go, probeAll of health.go and Handler of admin.go:
-- the parts at work on one pool, one limiter and one engine. Each event is a whole operation of a part:
-- the operations follow each other in any order.
pub mod Kept
pub mod Passes
pub mod Turns
pub mod Steady
pub mod Tickers
pub mod Bootstrap
use go_multi_warp.Prelude.{
  ℕ, ℤ, Bool, true, false, not, ◌&&◌, List, [], ◌∷◌, Option, none, some, Bytes, get_elem?,
  if◌then◌else◌,
}
use go_multi_warp.Config.{Config, RunMode, attach, managed}
use go_multi_warp.Pool.Backend.{Backend, Snapshot}
use go_multi_warp.Pool.Registry.{Pool, new_pool}
use go_multi_warp.Pool.Select.{Outcome, done, ◌>>=◌}
use go_multi_warp.Proxy.Wire.{Wire}
use go_multi_warp.Proxy.Socks5.{Ips}
use go_multi_warp.Proxy.Serve.{ProxyState, Outside, new_state, handle_socks5}
use go_multi_warp.Proxy.Http.{Parsers, handle_http}
use go_multi_warp.Health.{Probed, probe_one, handle}
use go_multi_warp.Control.Supervisor
use go_multi_warp.Control.Uniqueness.{Engine, Settings, World, new_engine, tick}
use go_multi_warp.Control.Uniqueness.Recheck.{recheck_in_pool}
use go_multi_warp.Control.Uniqueness.Snapshot.{StatsSnapshot, snapshot_stats}
use go_multi_warp.Admin.{
  HealthResponse, MetricsResponse, Reconnected, healthz, readyz, metrics, backends_page, reconnect,
}
use go_multi_warp.Admin.Prometheus.{prometheus}

-- The pool of `proxies` is the one that all parts share.
pub record Program : Type 0 where
  pub settings : Settings
  pub started : ℕ
  pub proxies : ProxyState
  pub engine : Engine
  pub is_fast : Bool  -- the fast ticker of the engine was not stopped

-- There is a controller.
abbrev pub is_managed : RunMode → Bool
is_managed managed = true
is_managed _ = false

unfoldable pub boot : (Bytes → Bool) → ℕ → Config → Program
boot splits now c =
    let p = new_pool splits now c in
    record {
      settings = record { config = c; managed = is_managed c.mode };
      started = now;
      proxies = new_state c p;
      engine = new_engine p;
      is_fast = true;
    }

abbrev pub on_pool : (Pool → Pool) → Program → Program
on_pool f q = record q { proxies = record q.proxies { pool = f q.proxies.pool } }

-- The engine, which reads and changes the pool of the others.
abbrev pub engine_of : Program → Engine
engine_of q = record q.engine { pool = q.proxies.pool }

abbrev pub with_engine : Engine → Program → Program
with_engine e q = record q { proxies = record q.proxies { pool = e.pool }; engine = e }

-- The goroutine of probeAll for the backend at a place.
abbrev pub probe_at : (Bytes → Bytes) → Bool → ℕ → ℕ → Probed → Option Backend → Pool → Pool
probe_at quote require_warp now i result none p = p
probe_at quote require_warp now i result (some b) p =
    handle now i b.id (probe_one quote require_warp result) p

-- One round of the loop of Run, by the ticker that it hears. A tick of the fast one may be waiting when it
-- is stopped.
unfoldable pub fast_tick : World → ℕ → Program → Program
fast_tick world now q =
    let e = tick q.settings world now (engine_of q) in
    record (with_engine e q) { is_fast = q.is_fast && not e.first_ok }

unfoldable pub slow_tick : World → ℕ → World → ℕ → Program → Program
slow_tick world now again later q =
    with_engine (recheck_in_pool q.settings again later (tick q.settings world now (engine_of q))) q

-- The handler that net/http picks for a path.
pub data Route : Type 0 where
  healthz_route readyz_route metrics_route prometheus_route backends_route : Route
  reconnect_route : Bool → Bytes → Route

pub data Page : Type 0 where
  health_page : HealthResponse → Page
  ready_page : ℕ × Bytes → Page
  metrics_page : MetricsResponse → Page
  text_page : Bytes → Page
  list_page : List Snapshot → Page
  reconnect_page : Reconnected → Page

-- UniqueStats
abbrev pub unique_stats : Program → Option StatsSnapshot
unique_stats q = some (snapshot_stats q.settings (engine_of q))

abbrev answered : {A : Type 0} → (A → Page) → ProxyState × A → ProxyState × Page
answered page (st, a) = (st, page a)

unfoldable pub handler : Route → ℕ → Program → ProxyState × Page
handler healthz_route now q =
    answered health_page (healthz q.started (unique_stats q) now q.proxies)
handler readyz_route now q = answered ready_page (readyz now q.proxies)
handler metrics_route now q =
    answered metrics_page (metrics q.settings.config q.started (unique_stats q) now q.proxies)
handler prometheus_route now q = answered text_page (prometheus q.started now q.proxies)
handler backends_route now q = (q.proxies, list_page (backends_page now q.proxies))
handler (reconnect_route is_post path) now q =
    answered reconnect_page (reconnect is_post path now q.proxies)

pub data Event : Type 0 where
  socks_session : Outside → Ips → ℕ → Bytes → Wire → Event
  http_session : Outside → Parsers → ℕ → Bytes → Wire → Event
  probes : (Bytes → Bytes) → ℕ → ℕ → Probed → Event
  supervises : (ℤ → Bool) → ℕ → Event
  fast_ticks : World → ℕ → Event
  slow_ticks : World → ℕ → World → ℕ → Event
  requests : Route → ℕ → Event

abbrev pub served : Program → ProxyState × Wire → Outcome Program
served q (st, w) = done (record q { proxies = st })

unfoldable pub step : Event → Program → Outcome Program
unfolding fast_tick slow_tick handler
step (socks_session out ips key ip w) q = handle_socks5 out ips key ip w q.proxies >>= served q
step (http_session out ps key ip w) q = handle_http out ps key ip w q.proxies >>= served q
step (probes quote now i result) q = done (
    on_pool
      (λ p. probe_at quote q.settings.config.require_warp now i result (get_elem? p.backends i) p)
      q)
step (supervises restarts now) q = done (
    on_pool (λ p. (Supervisor.tick q.settings.config.control q.settings.managed restarts now p).0)
      q)
step (fast_ticks world now) q = done (fast_tick world now q)
step (slow_ticks world now again later) q = done (slow_tick world now again later q)
step (requests route now) q = done (record q { proxies = (handler route now q).0 })

unfoldable pub run : List Event → Program → Outcome Program
unfolding step
run [] q = done q
run (e ∷ es) q = step e q >>= run es

-- ===== src/Program/Steady.antt =====
-- The whole program, over any sequence of operations of its parts.
use go_multi_warp.Prelude.{
  ℕ, ◌+◌, ◌*◌, ◌≤◌, ◌<◌, ℤ, pos, IsInt32, ◌≡◌, refl, sym, ap, subst, ◌∙◌, inr, Bool, true, false,
  List, [], ◌∷◌, ◌++◌, Option, none, some, Bytes, length, get_elem?, All, arith, if◌then◌else◌,
}
use go_multi_warp.Config.{Config, BackendAddr, backend_addrs}
use go_multi_warp.Pool.Backend.{Backend, unknown, new_backend}
use go_multi_warp.Pool.Registry.{Pool, made, add_all, new_pool}
use go_multi_warp.Pool.Select.{Outcome, done, ◌>>=◌}
use go_multi_warp.Pool.Select.Polls.{inflights}
use go_multi_warp.Pool.Limiter.{new_conn_limiter, find_ip}
use go_multi_warp.Pool.Limiter.Counts.{count}
use go_multi_warp.Pool.Limiter.Calls.{IsAccounted}
use go_multi_warp.Proxy.Wire.{Wire}
use go_multi_warp.Proxy.Serve.{ProxyState, new_state, handle_socks5}
use go_multi_warp.Proxy.Serve.Balance.{Settled, handle_socks5-Settled}
use go_multi_warp.Proxy.Http.{handle_http}
use go_multi_warp.Proxy.Http.Guarded.{handle_http-Settled}
use go_multi_warp.Health.{Probed, probe_one}
use go_multi_warp.Control.Supervisor
use go_multi_warp.Std.{atoi}
use go_multi_warp.Proxy.Auth.{drop}
use go_multi_warp.Control.Uniqueness.{tick}
use go_multi_warp.Admin.{healthz, readyz, metrics, reconnect_path, reconnect_id, reconnect}
use go_multi_warp.Admin.Prometheus.{prometheus}
use go_multi_warp.Program.{
  Program, Event, socks_session, http_session, probes, supervises, fast_ticks, slow_ticks, requests,
  Route, healthz_route, readyz_route, metrics_route, prometheus_route, backends_route,
  reconnect_route, probe_at, fast_tick, slow_tick, handler, on_pool, engine_of, boot, served, step,
  run,
}
use go_multi_warp.Program.Kept.{
  view, view-handle, view-supervisor, view-force_state, view-healthy_count,
}
use go_multi_warp.Program.Passes.{view-tick, view-recheck_in_pool}
use go_multi_warp.Program.Turns.{handle_socks5-rr, handle_http-rr}

-- The sticky key of a session is short of 2 ^ 63.
abbrev pub IsFair : Event → Type 0
IsFair (socks_session out ips key ip w) = key < 0x8000000000000000
IsFair (http_session out ps key ip w) = key < 0x8000000000000000
IsFair _ = Unit {0}

-- Between two operations: the slots that are taken are `ns`, the round-robin counter is at most `k`, and
-- the limiter counts no lease.
abbrev pub Calm : List ℤ → ℤ → ℤ → ℕ → ProxyState → Type 0
Calm ns max_global max_per_ip k st =
    (inflights st.pool.backends ≡ ns)
    × (st.pool.rr ≤ k)
    × IsAccounted max_global max_per_ip (st.limiter, [])

-- The view of the pool and the limiter are as before.
abbrev Same : ProxyState → ProxyState → Type 0
Same st t = (view t.pool ≡ view st.pool) × (t.limiter ≡ st.limiter)

Same-reconnect_id : (now : ℕ) (o : Option ℤ) (st : ProxyState) → Same st (reconnect_id now o st).0
Same-reconnect_id now none st = (refl, refl)
Same-reconnect_id now (some id) st = ground (arith, view-force_state now id unknown st.pool)

Same-handler : (route : Route) (now : ℕ) (q : Program) → Same q.proxies (handler route now q).0
unfolding handler healthz readyz metrics prometheus reconnect
Same-handler healthz_route now q = (view-healthy_count now q.proxies.pool, refl)
Same-handler readyz_route now q = (view-healthy_count now q.proxies.pool, refl)
Same-handler metrics_route now q = (view-healthy_count now q.proxies.pool, refl)
Same-handler prometheus_route now q = (view-healthy_count now q.proxies.pool, refl)
Same-handler backends_route now q = (refl, refl)
Same-handler (reconnect_route false path) now q = (refl, refl)
Same-handler (reconnect_route true path) now q =
    Same-reconnect_id now (atoi (drop (length reconnect_path) path)) q.proxies

view-probe_at :
    (quote : Bytes → Bytes) (require_warp : Bool) (now i : ℕ) (x : Probed) (o : Option Backend)
    (p : Pool)
    → view (probe_at quote require_warp now i x o p) ≡ view p
view-probe_at quote require_warp now i x none p = refl
view-probe_at quote require_warp now i x (some b) p =
    view-handle now i b.id (probe_one quote require_warp x) p

-- The operations that are not sessions.
abbrev after : Event → Program → Program
after (probes quote now i x) q =
    on_pool (λ p. probe_at quote q.settings.config.require_warp now i x (get_elem? p.backends i) p)
      q
after (supervises restarts now) q =
    on_pool (λ p. (Supervisor.tick q.settings.config.control q.settings.managed restarts now p).0) q
after (fast_ticks world now) q = fast_tick world now q
after (slow_ticks world now again later) q = slow_tick world now again later q
after (requests route now) q = record q { proxies = (handler route now q).0 }
after _ q = q

Same-after : (e : Event) (q : Program) → Same q.proxies (after e q).proxies
unfolding fast_tick slow_tick
Same-after (probes quote now i x) q = (
  view-probe_at quote q.settings.config.require_warp now i x (get_elem? q.proxies.pool.backends i)
      q.proxies.pool,
  refl,
)
Same-after (supervises restarts now) q =
    (view-supervisor q.settings.config.control q.settings.managed restarts now q.proxies.pool, refl)
Same-after (fast_ticks world now) q = (view-tick q.settings world now (engine_of q), refl)
Same-after (slow_ticks world now again later) q = (
  view-recheck_in_pool q.settings again later (tick q.settings world now (engine_of q))
      ∙ view-tick q.settings world now (engine_of q),
  refl,
)
Same-after (requests route now) q = Same-handler route now q
Same-after (socks_session out ips key ip w) q = (refl, refl)
Same-after (http_session out ps key ip w) q = (refl, refl)

module _ (ns : List ℤ) (mg mi : ℤ) where
  abbrev Goes : ℕ → Outcome Program → Type 0
  Goes k r = (q : Program) × (r ≡ done q) × Calm ns mg mi k q.proxies

  -- An operation that keeps the view of the pool and the limiter.
  view-Calm : (k : ℕ) (st t : ProxyState) → Same st t → Calm ns mg mi k st → Calm ns mg mi (k + 3) t
  view-Calm k st t (e, l) (same, bound, a) =
      let rr : t.pool.rr ≡ st.pool.rr = ap (λ v. v.1) e in
      (ap (λ v. v.0) e ∙ same, omega arith, subst (λ x. IsAccounted mg mi (x, [])) (sym l) a)

  session-Calm :
      (k : ℕ) (q : Program) (r : Outcome (ProxyState × Wire))
      → Settled ns mg mi [] r
      → ((st : ProxyState) (v : Wire) → r ≡ done (st, v) → st.pool.rr ≤ k)
      → Goes k (r >>= served q)
  session-Calm k q r (st, v, e, same, a, closed) turns =
      (record q { proxies = st }, ap (λ x. x >>= served q) e, (same, turns st v e, a))

  after-Goes :
      (e : Event) (q : Program) (k : ℕ)
      → Calm ns mg mi k q.proxies
      → Goes (k + 3) (done (after e q))
  after-Goes e q k c =
      (after e q, refl, view-Calm k q.proxies (after e q).proxies (Same-after e q) c)

  step-Goes :
      (e : Event) (q : Program) (k : ℕ)
      → IsFair e
      → k + 3 < 0x8000000000000000
      → All IsInt32 ns
      → Calm ns mg mi k q.proxies
      → Goes (k + 3) (step e q)
  unfolding step fast_tick slow_tick
  step-Goes (socks_session out ips key ip w) q k fair h small (same, bound, a) =
      session-Calm (k + 3) q (handle_socks5 out ips key ip w q.proxies)
        (subst (λ xs. Settled xs mg mi [] (handle_socks5 out ips key ip w q.proxies)) same
          (handle_socks5-Settled out ips key ip w q.proxies mg mi [] fair (omega arith)
            (subst (All IsInt32) (sym same) small) (omega arith) a))
        (λ st v e. let turns = handle_socks5-rr out ips key ip w q.proxies st v e in omega arith)
  step-Goes (http_session out ps key ip w) q k fair h small (same, bound, a) =
      session-Calm (k + 3) q (handle_http out ps key ip w q.proxies)
        (subst (λ xs. Settled xs mg mi [] (handle_http out ps key ip w q.proxies)) same
          (handle_http-Settled out ps key ip w q.proxies mg mi [] fair (omega arith)
            (subst (All IsInt32) (sym same) small) (omega arith) a))
        (λ st v e. let turns = handle_http-rr out ps key ip w q.proxies st v e in omega arith)
  step-Goes (probes quote now i x) q k fair h small c = after-Goes (probes quote now i x) q k c
  step-Goes (supervises restarts now) q k fair h small c =
      after-Goes (supervises restarts now) q k c
  step-Goes (fast_ticks world now) q k fair h small c = after-Goes (fast_ticks world now) q k c
  step-Goes (slow_ticks world now again later) q k fair h small c =
      after-Goes (slow_ticks world now again later) q k c
  step-Goes (requests route now) q k fair h small c = after-Goes (requests route now) q k c

  run-Goes :
      (es : List Event) (q : Program) (k : ℕ)
      → All IsFair es
      → k + 3 * length es < 0x8000000000000000
      → All IsInt32 ns
      → Calm ns mg mi k q.proxies
      → Goes (k + 3 * length es) (run es q)
  unfolding run
  run-Goes [] q k fair h small (same, bound, a) = (q, refl, (same, omega arith, a))
  run-Goes (e ∷ es) q k (fair, rest) h small c =
      let (t, x, d) = step-Goes e q k fair (omega arith) small c in
      let (u, y, (same, bound, a)) = run-Goes es t (k + 3) rest (omega arith) small d in
      (u, ap (λ r. r >>= run es) x ∙ y, (same, omega arith, a))

-- No backend of a list has a slot out.
abbrev pub Untaken : List Backend → Type 0
Untaken bs = All (λ n. n ≡ pos 0) (inflights bs)

Untaken-append : (bs cs : List Backend) → Untaken bs → Untaken cs → Untaken (bs ++ cs)
Untaken-append [] cs u v = v
Untaken-append (b ∷ bs) cs (h, u) v = (h, Untaken-append bs cs u v)

Untaken-if :
    (ok : Bool) (x y : List Backend × List (ℤ × ℕ))
    → Untaken x.0
    → Untaken y.0
    → Untaken (if ok then x else y).0
Untaken-if true x y u v = u
Untaken-if false x y u v = v

Untaken-add_all :
    (splits : Bytes → Bool) (now : ℕ) (c : Config) (xs : List BackendAddr)
    (s : List Backend × List (ℤ × ℕ))
    → Untaken s.0
    → Untaken (add_all splits now c xs s).0
unfolding add_all new_backend
Untaken-add_all splits now c [] (bs, m) u = u
Untaken-add_all splits now c (a ∷ xs) (bs, m) u = Untaken-add_all splits now c xs _ (
    Untaken-if (splits a.addr) (bs ++ made now c a ∷ [], (a.id, length bs) ∷ m) (bs, m)
      (Untaken-append bs (made now c a ∷ []) u (refl, tt)) u)

zeros-IsInt32 : (ns : List ℤ) → All (λ n. n ≡ pos 0) ns → All IsInt32 ns
zeros-IsInt32 [] h = tt
zeros-IsInt32 (n ∷ ns) (e, h) = (rw e (omega arith), zeros-IsInt32 ns h)

boot-Calm :
    (splits : Bytes → Bool) (now : ℕ) (c : Config)
    → Calm
        (inflights (new_pool splits now c).backends)
        c.limits.max_conn_global
        c.limits.max_conn_per_ip
        0
        (boot splits now c).proxies
unfolding boot new_state new_pool new_conn_limiter count find_ip
boot-Calm splits now c = (
  refl,
  omega arith,
  record {
    total = refl;
    within = ground arith;
    same_global = refl;
    same_ip = refl;
    each = λ ip. inr (refl, ground arith);
  },
)

-- From the start of the program on, any sequence of sessions of both listeners, probes, ticks of the
-- supervisor and of the uniqueness engine and requests to the admin interface, however each of them
-- ends, runs without a panic, for sticky keys short of 2 ^ 63 and fewer than 2 ^ 63 / 3 of them. After
-- it there are as many backends as at the start, no slot of them is taken, and the limiter counts no
-- connection and has the limits of the configuration. The tickers that start the probes and the ticks
-- are apart.
pub run-boot :
    (splits : Bytes → Bool) (now : ℕ) (c : Config) (es : List Event)
    → All IsFair es
    → 3 * length es < 0x8000000000000000
    → (q : Program) × (run es (boot splits now c) ≡ done q)
      × (inflights q.proxies.pool.backends ≡ inflights (new_pool splits now c).backends)
      × Untaken q.proxies.pool.backends
      × IsAccounted c.limits.max_conn_global c.limits.max_conn_per_ip (q.proxies.limiter, [])
unfolding new_pool
run-boot splits now c es fair few =
    let zero_each = Untaken-add_all splits now c (backend_addrs c) ([], []) tt in
    let (q, e, (same, bound, a)) =
      run-Goes (inflights (new_pool splits now c).backends) c.limits.max_conn_global
        c.limits.max_conn_per_ip es (boot splits now c) 0 fair (omega arith)
        (zeros-IsInt32 _ zero_each) (boot-Calm splits now c) in
    (q, e, same, subst (All (λ n. n ≡ pos 0)) (sym same) zero_each, a)

-- ===== src/Examples/Runs.antt =====
-- The whole program of main.go at work.
use go_multi_warp.Prelude.{◌≡◌, true, List, [], ◌∷◌, codes, arith}
use go_multi_warp.Pool.Registry.{new_pool}
use go_multi_warp.Pool.Select.{done}
use go_multi_warp.Pool.Select.Polls.{inflights}
use go_multi_warp.Pool.Limiter.Calls.{IsAccounted}
use go_multi_warp.Health.{no_answer}
use go_multi_warp.Program.{
  Program, Event, socks_session, probes, supervises, fast_ticks, requests, healthz_route, boot, run,
}
use go_multi_warp.Program.Steady.{Untaken, run-boot}
use go_multi_warp.Examples.Passes.{world}
use go_multi_warp.Examples.Registries.{two_given, always}
use go_multi_warp.Examples.Sessions.{outside, ips, wire}

-- A session before any backend is admitted, a probe that fails, the first admission, and another session.
abbrev events : List Event
events =
    socks_session outside ips 7 (codes "10.0.0.1")
      (wire (5 ∷ 1 ∷ 0 ∷ 5 ∷ 1 ∷ 0 ∷ 1 ∷ 1 ∷ 1 ∷ 1 ∷ 1 ∷ 0 ∷ 80 ∷ []))
    ∷ probes (λ s. s) 20 1 (no_answer (codes "refused"))
    ∷ fast_ticks world 30
    ∷ socks_session outside ips 7 (codes "10.0.0.1")
        (wire (5 ∷ 1 ∷ 0 ∷ 5 ∷ 1 ∷ 0 ∷ 1 ∷ 1 ∷ 1 ∷ 1 ∷ 1 ∷ 0 ∷ 80 ∷ []))
    ∷ supervises (λ id. true) 40
    ∷ requests healthz_route 50
    ∷ []

run-boot_example :
    (q : Program) × (run events (boot always 5 two_given) ≡ done q)
    × (inflights q.proxies.pool.backends ≡ inflights (new_pool always 5 two_given).backends)
    × Untaken q.proxies.pool.backends
    × IsAccounted two_given.limits.max_conn_global two_given.limits.max_conn_per_ip
        (q.proxies.limiter, [])
run-boot_example =
    run-boot always 5 two_given events (omega arith, (tt, (tt, (omega arith, (tt, (tt, tt))))))
      (omega arith)

-- ===== src/Admin/Prometheus.antt =====
-- internal/admin/admin.go: the page of prometheus.
use go_multi_warp.Prelude.{ℕ, ℤ, pos, List, [], ◌∷◌, ◌++◌, Option, none, some, Bytes, codes, length}
use go_multi_warp.Std.{itoa}
use go_multi_warp.Pool.Backend.{ProbeInfo, Snapshot}
use go_multi_warp.Pool.Registry.{healthy_count, snapshots, admit_stats}
use go_multi_warp.Pool.Limiter.{active}
use go_multi_warp.Control.Uniqueness.Recheck.{unique_ips}
use go_multi_warp.Proxy.Serve.{ProxyState}
use go_multi_warp.Admin.{uptime}

-- The lines HELP and TYPE of a metric.
abbrev heading : Bytes → Bytes → Bytes → Bytes
heading name help kind =
    codes "# HELP "
    ++ (name
        ++ (codes " "
            ++ (help ++ (codes "\n# TYPE " ++ (name ++ (codes " " ++ (kind ++ codes "\n")))))))

abbrev single : Bytes → Bytes → Bytes → ℤ → Bytes
single name help kind value =
    heading name help kind ++ (name ++ (codes " " ++ (itoa value ++ codes "\n")))

-- One line for a backend.
abbrev labelled : Bytes → Snapshot → ℤ → Bytes
labelled name s value =
    name
    ++ (codes "{id=\""
        ++ (itoa s.id
            ++ (codes "\",addr=\"" ++ (s.addr ++ (codes "\"} " ++ (itoa value ++ codes "\n"))))))

unfoldable pub per_backend : (Snapshot → Bytes) → List Snapshot → Bytes
per_backend line [] = []
per_backend line (s ∷ ss) = line s ++ per_backend line ss

abbrev latency_line : Bytes → Snapshot → Option ProbeInfo → Bytes
latency_line name s none = []
latency_line name s (some probe) = labelled name s probe.latency_ms

abbrev family : Bytes → Bytes → Bytes → (Snapshot → ℤ) → List Snapshot → Bytes
family name help kind value ss =
    heading name help kind ++ per_backend (λ s. labelled name s (value s)) ss

unfoldable pub prometheus : ℕ → ℕ → ProxyState → ProxyState × Bytes
unfolding per_backend
prometheus started now st =
    let (q, healthy) = healthy_count now st.pool in
    let a = admit_stats q in
    let ss = snapshots now q in
    (
      record st { pool = q },
      single (codes "multiwarp_up") (codes "1 if the proxy is running") (codes "gauge") (pos 1)
          ++ (single (codes "multiwarp_uptime_seconds") (codes "Uptime in seconds")
                (codes "counter") (uptime started now)
              ++ (single (codes "multiwarp_backends_total") (codes "Total configured backends")
                    (codes "gauge") (pos (length q.backends))
                  ++ (single (codes "multiwarp_backends_healthy")
                        (codes "Healthy selectable backends") (codes "gauge") (pos healthy)
                      ++ (single (codes "multiwarp_backends_in_pool")
                            (codes "Backends admitted to selector") (codes "gauge") (pos a.in_pool)
                          ++ (single (codes "multiwarp_backends_warming")
                                (codes "Backends still warming") (codes "gauge") (pos a.warming)
                              ++ (single (codes "multiwarp_backends_parked")
                                    (codes "Backends parked (uniqueness strict)") (codes "gauge")
                                    (pos a.parked)
                                  ++ (single (codes "multiwarp_unique_ipv4")
                                        (codes "Unique egress IPv4 count") (codes "gauge")
                                        (pos (unique_ips a))
                                      ++ (single (codes "multiwarp_active_connections")
                                            (codes "Current active data-plane connections")
                                            (codes "gauge") (active st.limiter)
                                          ++ (single (codes "multiwarp_selects_total")
                                                (codes "Backend select attempts") (codes "counter")
                                                (pos q.selects)
                                              ++ (single (codes "multiwarp_select_fail_total")
                                                    (codes "Backend select failures")
                                                    (codes "counter") (pos q.select_fail)
                                                  ++ (single (codes "multiwarp_probe_success_total")
                                                        (codes "Health probe successes")
                                                        (codes "counter") (pos q.success)
                                                      ++ (single
                                                            (codes "multiwarp_probe_failure_total")
                                                            (codes "Health probe failures")
                                                            (codes "counter") (pos q.failure)
                                                          ++ (family
                                                            (codes "multiwarp_backend_inflight")
                                                            (codes
                                                            "Current in-flight requests per backend")
                                                            (codes "gauge") (λ s. s.inflight) ss
                                                            ++ (family
                                                            (codes "multiwarp_backend_fails")
                                                            (codes
                                                            "Consecutive fail count per backend")
                                                            (codes "gauge") (λ s. pos s.fails) ss
                                                            ++ ((heading
                                                            (codes "multiwarp_backend_latency_ms")
                                                            (codes "Last probe latency per backend")
                                                            (codes "gauge")
                                                            ++ per_backend
                                                            (λ s.
                                                            latency_line
                                                            (codes "multiwarp_backend_latency_ms") s
                                                            s.last_probe)
                                                            ss)
                                                            ++ (family
                                                            (codes
                                                            "multiwarp_backend_success_total")
                                                            (codes
                                                            "Total successful upstream dials per backend")
                                                            (codes "counter")
                                                            (λ s. pos s.success_total) ss
                                                            ++ family
                                                            (codes "multiwarp_backend_fail_total")
                                                            (codes
                                                            "Total failed upstream dials per backend")
                                                            (codes "counter")
                                                            (λ s. pos s.fail_total)
                                                            ss)))))))))))))))),
    )

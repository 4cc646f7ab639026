-- ===== src/Lib.antt =====
-- go-multi-warp: a load balancer over several instances of Cloudflare WARP. This library models its
-- configuration, its pool of backends, the limiter of its clients, the sessions of its listeners, its
-- control plane and its admin interface, and states what makes them correct.
--
-- The program. main.go loads a configuration (internal/config), makes a pool of backends, each a local
-- SOCKS5 port of one instance (internal/pool), and starts the listeners (internal/proxy), the health
-- prober (internal/health), the supervisor and the uniqueness engine (internal/control) and the admin
-- interface (internal/admin). A listener takes a lease from the limiter for the peer, selects a backend
-- of the pool, and reports success or failure to it; the prober and the control plane change the same
-- backends by their ids.
--
-- Parts and files.
--   Prelude   the shared names: native numbers, the integers over them, list access, byte strings, sums, and
--             the wrap-around of int32, int64 and uint64.
--   Std       what the code uses of Go's strings and strconv: TrimSpace, ToLower, Split, CutPrefix, Cut,
--             Atoi and Itoa. Std/Split and Std/Decimal have their laws.
--   Config    internal/config/config.go. Config: the types, Default, splitCSV, parseBool,
--             UniqueEffortActive, BackendAddrs, LicenseKeyFor. Config/Env: applyEnv, one entry of
--             `overrides` for each variable, in the order of the code. Config/Load: Load, loadFile and
--             Validate. Config/Durations: the decoding of durations, and the directories of an instance.
--   Pool/Backend   internal/pool/backend.go: the Backend with its state machine. One function for each
--             method; Backend/History runs any sequence of them, and Backend/Race has TryAcquire and Release
--             by many goroutines at once.
--   Pool/Registry  internal/pool/pool.go: New, the index by id and the operations that go through it.
--   Pool/Select    internal/pool/pool.go: Select, pickRR, pickLeastConn and pickSticky.
--   Pool/Limiter   internal/pool/pool.go: ConnLimiter, Acquire, Release, peerKey and StickyKey; in
--             Limiter/Race Acquire and Release by many goroutines at once.
--   Control   internal/control. Control/Supervisor: tick of supervisor.go. Control/Backoff: the limits and
--             delays of uniqueness.go. Control/Uniqueness: tick and tryReregister of uniqueness.go, and
--             in Control/Uniqueness/Recheck recheckInPool, with what the probes answer as a parameter.
--             Control/Uniqueness/Snapshot: SnapshotStats; Control/Uniqueness/Probe: the reading of a
--             probe's answer. Control/Warp: one instance of warpctl_linux.go, with its files and its clock;
--             in Control/Warp/Fleet StartAll. Control/Windows: warpctl_windows.go.
--   Proxy     internal/proxy. Proxy/Dial: DialViaSocks of tunnel.go. Proxy/Auth: the credentials of
--             state.go. Proxy/Wire: one connection, for both sides of SOCKS5. Proxy/Socks5: connectSOCKS5
--             and readSocksAddr of tunnel.go, and the handshake of socks5.go. Proxy/Serve: State, and
--             handle of socks5.go. Proxy/Http: handle, handleConnect and handlePlain of http_proxy.go.
--             In Proxy/Http/Forward what handlePlain sends on. Proxy/Tunnel: CopyBidirectional of
--             tunnel.go. Proxy/Listen: Serve and drain of both listeners, and the end of main.go.
--   Admin     internal/admin/admin.go: healthz, readyz, metrics, backends and reconnect; in Admin/Prometheus
--             the page of prometheus.
--   Program   main.go: the parts at work on what they share, one whole operation after the other, with New of
--             supervisor.go, Run of uniqueness.go, probeAll of health.go and Handler of admin.go. In
--             Program/Tickers the tickers of the prober and the supervisor, in Program/Bootstrap Bootstrap.
--   Health    internal/health/health.go: the reading of a trace and what a probe does to its backend.
--   Examples  concrete runs.
--
-- How the code corresponds. A method is a function from its receiver to what it leaves of it, with its
-- result. A reading of the clock is the argument `now`, one for each call: a natural number of
-- nanoseconds for the backends, an int64 for the limiter. An int or a Duration is an integer; the
-- int32 and int64 counters wrap as in Go (to_int32, to_int64), and so do the uint64 ones (inc_u64). The
-- counts of failures and of attempts at a unique address do not wrap. A `*Backend` is a place in
-- `backends`; the index gives the place of an id. Index out of range is the outcome `panic`. A string is
-- the list of its bytes; white space and letters are those of ASCII. A sync.Map is an association list.
--
-- Bounds. Loops are structural: over the list of backends, or, for pickRR, over the number of rounds,
-- which is the number of healthy backends as in the code. Itoa writes at most as many digits as its
-- argument is large plus one, which Std/Decimal shows to be enough by reading them back.
--
-- Parameters. Files, environment, YAML and address resolution are fields of Config.Load.System;
-- net.SplitHostPort and net.ParseIP are those of Pool.Limiter.Net. The product of floats with which
-- Acquire fills a bucket is the argument `refill`; what is said of the buckets holds for every such
-- function.
--
-- Interleavings. In most files a method runs as one step, so the compare-and-swap loop of TryAcquire
-- succeeds in its first round. Pool/Backend/Race and Pool/Limiter/Race split the methods that count into
-- their atomic steps, which the goroutines take in any order.
--
-- Not modelled. Two goroutines inside any other method. Processes, sockets, HTTP and logging.
-- A connection is the bytes that the peer sends in all, what was sent to it and the number of writes
-- that still succeed; a session runs alone, against the pool and the limiter that it finds, and what
-- goes through its tunnel is a matter of Proxy/Tunnel alone. When the tickers fire, and JSON, are left
-- out. net.ParseIP and net.IP's String, http.ReadRequest with the exchange that follows, net/url's
-- escaping of a path, the HTTP requests of the probes, what arrives in a tunnel and when, the processes of the controller (warp-cli, warp-svc), base64 decoding, the FNV
-- hash, time.ParseDuration and filepath.Join are parameters; to the supervisor and the uniqueness engine
-- the controller's calls are, and to the engine's passes what its probes answer. The rounds of
-- waitReady are wait_rounds, one for each 800 ms of its timeout and two more; those of drain are one for
-- each 100 ms of its timeout and two more.
pub mod Prelude
pub mod Std
pub mod Config
pub mod Pool
pub mod Control
pub mod Proxy
pub mod Health
pub mod Admin
pub mod Program
pub mod Examples

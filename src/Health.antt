-- ===== src/Health.antt =====
-- internal/health/health.go: what becomes of a probe. The HTTP request through the backend is the
-- parameter `Probed`, its outcome; `quote` is the %q of fmt.
pub mod Trace
pub mod Failing
use go_multi_warp.Prelude.{
  ℕ, ℤ, pos, leb, Bool, true, false, ◌&&◌, ◌||◌, not, List, [], ◌∷◌, ◌++◌, Option, none, some,
  Bytes, codes, bytes_eq, get_elem?, if◌then◌else◌,
}
use go_multi_warp.Std.{cut_prefix, split, trim_space}
use go_multi_warp.Pool.Backend.{Backend, ProbeInfo, unhealthy}
use go_multi_warp.Pool.Registry.{Pool, pool_mark_probe_ok, pool_mark_probe_fail, pool_force_state}

-- A request that failed, or the latency and the body of an answer with status 200.
pub data Probed : Type 0 where
  no_answer : Bytes → Probed
  answer : ℤ → Bytes → Probed

pub data Verdict : Type 0 where
  bad : Bytes → Verdict
  good : ProbeInfo → Verdict

-- A line of the trace; the prefixes are tried in this order.
unfoldable pub read_line : Bytes → ProbeInfo → ProbeInfo
read_line line info = elim (cut_prefix line (codes "warp=")) [
  | some v ↦ record info { warp = trim_space v }
  | none ↦ elim (cut_prefix line (codes "ip=")) [
    | some v ↦ record info { ip = trim_space v }
    | none ↦ elim (cut_prefix line (codes "loc=")) [
      | some v ↦ record info { loc = trim_space v }
      | none ↦ info
    ]
  ]
]

unfoldable pub read_lines : List Bytes → ProbeInfo → ProbeInfo
unfolding read_line
read_lines [] info = info
read_lines (l ∷ ls) info = read_lines ls (read_line l info)

unfoldable pub read_trace : ℤ → Bytes → ProbeInfo
read_trace latency body =
    read_lines (split 10 body) (record { ip = []; warp = []; loc = []; latency_ms = latency })

abbrev pub is_active : Bytes → Bool
is_active warp = bytes_eq warp (codes "on") || bytes_eq warp (codes "plus")

unfoldable pub probe_one : (Bytes → Bytes) → Bool → Probed → Verdict
probe_one quote require_warp (no_answer e) = bad e
probe_one quote require_warp (answer latency body) =
    let info = read_trace latency body in
    if require_warp && not (is_active info.warp)
    then bad (codes "warp not active (got " ++ quote info.warp ++ codes ")")
    else good info

fails_at : Option Backend → ℕ
fails_at none = 0
fails_at (some b) = b.fails

-- The goroutine of probeAll for the backend at place `i`, whose id is `id`.
unfoldable pub handle : ℕ → ℕ → ℤ → Verdict → Pool → Pool
unfolding fails_at
handle now i id (good info) p = pool_mark_probe_ok now id info p
handle now i id (bad reason) p =
    let q = pool_mark_probe_fail now id reason p in
    if leb 3 (fails_at (get_elem? q.backends i)) then pool_force_state now id unhealthy q else q

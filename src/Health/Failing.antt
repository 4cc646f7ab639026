-- ===== src/Health/Failing.antt =====
-- What a failing probe of health.go does to its backend.
use go_multi_warp.Prelude.{
  ℕ, suc, ◌≤◌, leb, ◌≡◌, true, some, Bytes, arith, get_elem?, if◌then◌else◌,
}
use go_multi_warp.Pool.Backend.{
  Backend, unhealthy, in_pool, has_elapsed, is_selectable, mark_probe_fail, force_state,
}
use go_multi_warp.Pool.Registry.{Pool, get, modify, pool_mark_probe_fail, pool_force_state}
use go_multi_warp.Pool.Registry.Index.{get_elem?-modify}
use go_multi_warp.Health.{bad, handle}

fails-mark_probe_fail :
    (now : ℕ) (reason : Bytes) (b : Backend)
    → ((mark_probe_fail now reason b).fails ≡ suc b.fails)
      × ((mark_probe_fail now reason b).admit ≡ b.admit)
      × ((mark_probe_fail now reason b).fail_timeout ≡ b.fail_timeout)
unfolding mark_probe_fail
fails-mark_probe_fail now reason b = ground arith

out_until :
    (t now : ℕ) (reason : Bytes) (b : Backend)
    → b.admit ≡ in_pool
    → (is_selectable now (force_state t unhealthy (mark_probe_fail t reason b))).1
      ≡ has_elapsed now t b.fail_timeout
unfolding is_selectable force_state
out_until t now reason b a = ground (arith, fails-mark_probe_fail t reason b)

-- A probe that fails for the third time in a row or later takes an admitted backend out of service:
-- it is selectable again exactly once `fail_timeout` has passed, whatever its circuit breaker says.
pub handle-bad :
    (t now i : ℕ) (reason : Bytes) (p : Pool) (b : Backend)
    → get b.id p ≡ some i
    → get_elem? p.backends i ≡ some b
    → b.admit ≡ in_pool
    → 2 ≤ b.fails
    → (c : Backend) × (get_elem? (handle t i b.id (bad reason) p).backends i ≡ some c)
      × ((is_selectable now c).1 ≡ has_elapsed now t b.fail_timeout)
unfolding handle pool_mark_probe_fail pool_force_state get
handle-bad t now i reason p b known here a h =
    let marked = get_elem?-modify i (mark_probe_fail t reason) p.backends b here in
    let third : leb 3 (mark_probe_fail t reason b).fails ≡ true =
      ground (arith, fails-mark_probe_fail t reason b) in
    (
      force_state t unhealthy (mark_probe_fail t reason b),
      rw (known, marked, third, if◌then◌else◌, known)
          (get_elem?-modify i (force_state t unhealthy)
            (modify i (mark_probe_fail t reason) p.backends) (mark_probe_fail t reason b) marked),
      out_until t now reason b a,
    )

-- ===== src/Pool/Backend/Capacity.antt =====
-- The slots of a backend of backend.go: `inflight` is the number of leases that are out.
use go_multi_warp.Prelude.{
  ℕ, zero, suc, ℤ, pos, ◌≤ℤ◌, ◌+ℤ◌, ◌≡◌, true, ◌&&◌, List, [], ◌∷◌, Bytes, arith, IsInt32,
  to_int32_id, if◌then◌else◌,
}
use go_multi_warp.Pool.Backend.{
  Backend, new_backend, has_capacity, is_selectable, try_acquire, release, mark_success,
  mark_failure, mark_probe_ok, mark_probe_fail, force_state, set_admit, inc_unique_attempt,
}
use go_multi_warp.Pool.Backend.History.{Event, polls, acquires, releases, apply}

-- A step of the users of a backend: a granted slot is one more lease; a lease is released once, so
-- with none out there is nothing to release.
unfoldable pub use_step : ℕ → Event → Backend × ℕ → Backend × ℕ
use_step now acquires (b, held) =
    let (c, ok) = try_acquire now b in (c, if ok then suc held else held)
use_step now releases (b, zero) = (b, zero)
use_step now releases (b, suc held) = (release b, held)
use_step now e (b, held) = (apply now e b, held)

unfoldable pub use_all : List (ℕ × Event) → Backend × ℕ → Backend × ℕ
use_all [] s = s
use_all ((now, e) ∷ es) s = use_all es (use_step now e s)

pub record Accounted (s : Backend × ℕ) : Type 0 where
  pub counted : s.0.inflight ≡ pos s.1
  pub bounded : pos s.1 ≤ℤ s.0.max_inflight
  pub width : IsInt32 s.0.max_inflight

pub max_inflight-apply :
    (now : ℕ) (e : Event) (b : Backend) → (apply now e b).max_inflight ≡ b.max_inflight
unfolding apply is_selectable try_acquire release mark_success mark_failure mark_probe_ok
    mark_probe_fail force_state set_admit inc_unique_attempt
max_inflight-apply now polls b = ground arith
max_inflight-apply now e b = ground arith

use_step-Accounted :
    (now : ℕ) (e : Event) (s : Backend × ℕ) → Accounted s → Accounted (use_step now e s)
unfolding use_step apply is_selectable try_acquire release mark_success mark_failure mark_probe_ok
    mark_probe_fail force_state set_admit inc_unique_attempt
use_step-Accounted now acquires (b, held) a = ground (arith, to_int32_id (pos held +ℤ pos 1))
use_step-Accounted now releases (b, zero) a = a
use_step-Accounted now releases (b, suc held) a = ground (arith, to_int32_id (pos held))
use_step-Accounted now polls (b, held) a = ground arith
use_step-Accounted now e (b, held) a = ground arith

use_all-Accounted :
    (es : List (ℕ × Event)) (s : Backend × ℕ) → Accounted s → Accounted (use_all es s)
unfolding use_all
use_all-Accounted [] s a = a
use_all-Accounted ((now, e) ∷ es) s a =
    use_all-Accounted es (use_step now e s) (use_step-Accounted now e s a)

-- Over any history in which each lease is released once, `inflight` is the number of leases out and
-- never passes the limit: the int32 counter does not wrap.
pub use_all-inflight :
    (start : ℕ) (id : ℤ) (addr : Bytes) (max_fails fail_timeout open_after max_inflight : ℤ)
    (es : List (ℕ × Event))
    → IsInt32 max_inflight
    → Accounted
        (use_all es (new_backend start id addr max_fails fail_timeout open_after max_inflight, 0))
unfolding new_backend
use_all-inflight start id addr max_fails fail_timeout open_after max_inflight es w =
    use_all-Accounted es _ (ground arith)

-- A slot is given exactly to a selectable backend with capacity.
pub try_acquire_iff :
    (now : ℕ) (b : Backend) → (try_acquire now b).1 ≡ ((is_selectable now b).1 && has_capacity b)
unfolding try_acquire is_selectable
try_acquire_iff now b = ground arith

-- A granted slot takes one place, and giving it back restores the counter.
release-try_acquire :
    (now : ℕ) (b : Backend)
    → IsInt32 b.inflight
    → IsInt32 b.max_inflight
    → (try_acquire now b).1 ≡ true
    → ((try_acquire now b).0.inflight ≡ b.inflight +ℤ pos 1)
      × ((release (try_acquire now b).0).inflight ≡ b.inflight)
unfolding try_acquire is_selectable release
release-try_acquire now b w m h =
    ground (arith, to_int32_id (b.inflight +ℤ pos 1), to_int32_id b.inflight)
